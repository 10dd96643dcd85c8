-- ===== src/Cache/Geometry/Address.antt =====
-- userspace/src/cache_simulator.c: index and tag together name the line of an address.
use rpi_cpu_emulator_linux_d.Base.{
  ℕ, zero, suc, ◌+◌, ◌*◌, ◌/◌, ◌%◌, ◌^◌, ◌<◌, ◌≡◌, sym, ap, ◌∙◌, arith, bit_and-low_mask,
}
use native.Mathlib.Nat.{
  pow-suc, one-le-pow, pow-le-pow_right, mul_assoc, mod-lt, div-add-mod', div-div-eq-div-mul,
}
use rpi_cpu_emulator_linux_d.Cache.Geometry.{fast_log2, set_index, line_tag, fast_log2_lem}

pub pow-add : (a b : ℕ) → 2 ^ (a + b) ≡ 2 ^ a * 2 ^ b
pow-add a zero = ap (λ (t : ℕ). 2 ^ t) {x = a + 0} {y = a} (omega arith) ∙ omega arith
pow-add a (suc b) =
    ap (λ (t : ℕ). 2 ^ t) {x = a + suc b} {y = suc (a + b)} (omega arith)
    ∙ pow-suc 2 (a + b)
    ∙ ap (λ (t : ℕ). t * 2) (pow-add a b)
    ∙ mul_assoc (2 ^ a) (2 ^ b) 2
    ∙ ap (λ (t : ℕ). 2 ^ a * t) (sym (pow-suc 2 b))

fast_log2-pow : (k : ℕ) → k < 32 → fast_log2 (2 ^ k) ≡ k
fast_log2-pow k lt =
    (fast_log2_lem (2 ^ k) k (omega arith) (omega (arith, pow-suc 2 k, one-le-pow k 2)) (
      omega (
        arith,
        pow-suc 2 k,
        one-le-pow k 2,
        pow-le-pow_right {n = 2} (omega arith) {i = suc k} {j = 32} lt,
      ))).2

module _ (a b address : ℕ) (ha : a < 32) (hb : b < 32) where
  set_index-mod : set_index (2 ^ a) (2 ^ b) address ≡ address / 2 ^ a % 2 ^ b
  unfolding set_index
  set_index-mod = rw (fast_log2-pow a ha) (bit_and-low_mask b (address / 2 ^ a))

  line_tag-div : line_tag (2 ^ a) (2 ^ b) address ≡ address / 2 ^ a / 2 ^ b
  unfolding line_tag
  line_tag-div =
      rw (fast_log2-pow a ha, fast_log2-pow b hb, pow-add a b)
        (sym (div-div-eq-div-mul address (2 ^ a) (2 ^ b)))

  -- With a line size and a number of sets that are powers of two below 2 ^ 32, the index is in range,
  -- and tag, index and the offset in the line make up the address. So two addresses lie in one line
  -- exactly if they agree in index and tag.
  pub line_of_address :
      (set_index (2 ^ a) (2 ^ b) address < 2 ^ b)
      × (line_tag (2 ^ a) (2 ^ b) address * 2 ^ b + set_index (2 ^ a) (2 ^ b) address
          ≡ address / 2 ^ a)
  line_of_address =
      rw (set_index-mod, line_tag-div)
        (
          mod-lt (address / 2 ^ a) (one-le-pow b 2 (omega arith)),
          div-add-mod' (address / 2 ^ a) (2 ^ b),
        )
