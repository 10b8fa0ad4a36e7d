-- ===== src/Common/SpscQueue/Index.antt =====
-- Positions of the ring: how far apart two are, and which element each stands for.
use native.Mathlib.Nat.{mod-mod_of_dvd}
use Prim.Native.Nat.{◌∣◌}
use hft.Prelude.{ℕ, suc, ◌+◌, ◌%◌, ◌<◌, ◌≡◌, ◌≢◌, arith}
use hft.Common.SpscQueue.{word, sub_word, next_word}

pub apart : (t n : ℕ) → n < word → sub_word ((t + n) % word) (t % word) ≡ n
apart t n h = omega arith

pub next : (t n : ℕ) → next_word ((t + n) % word) ≡ (t + suc n) % word
next t n = omega arith

pub same_element : (c t : ℕ) → c ∣ word → t % word % c ≡ t % c
same_element c t d = mod-mod_of_dvd c t d

pub other_element : (c t i n : ℕ) → i < n → n < i + c → (t + n) % c ≢ (t + i) % c
other_element c t i n h k e = grind arith

pub together : (t n : ℕ) → n < word → t % word ≡ (t + n) % word → n ≡ 0
together t n h e = omega arith
