-- ===== src/Cache/Config/Accepts.antt =====
-- userspace/src/cache_simulator.c: what the questions accept is what `cache_init` needs.
use rpi_cpu_emulator_linux_d.Base.{ℕ, ◌≤◌, ◌<◌, ◌≡◌, inl, inr, refl, sym, ap, ◌∙◌, arith}
use rpi_cpu_emulator_linux_d.Base.{
  lt→ltb, Bool, true, false, Option, none, some, Bool-cases, Option-cases, List, [], ◌∷◌, ltb,
}
use mathlib.Core.Option.{some-injective}
use mathlib.Core.Path.{subst}
use rpi_cpu_emulator_linux_d.Cache.Level.{ReplacementPolicy}
use rpi_cpu_emulator_linux_d.Cache.Config.{
  Config, Ask, ◌>>=◌, get_valid_input, ask_if, configure_cache_sim_parameters, is_valid_num_lvls,
  is_valid_line_size, is_valid_assoc, is_valid_lvl_size, is_valid_algorithm_num, pure, policy_of,
}
use rpi_cpu_emulator_linux_d.Cache.Config.Sizes.{IsBuilt, IsBuilt-accepted}

-- Whatever the questions return has the property.
abbrev Yields : {A : Type 0} → Ask A → (A → Type 0) → Type 0
Yields {A} m Q = (i : List (Option ℕ)) (a : A) (rest : List (Option ℕ)) → m i ≡ some (a, rest) → Q a

Yields-pure : {A : Type 0} (Q : A → Type 0) (a : A) → Q a → Yields (pure a) Q
Yields-pure {A} Q a q i b rest h = subst Q (ap (λ t. t.0) (some-injective (a, i) (b, rest) h)) q

get_valid_input-valid :
    (is_valid : ℕ → Bool) → Yields (get_valid_input is_valid) (λ n. is_valid n ≡ true)
unfolding get_valid_input
get_valid_input-valid is_valid [] n rest h = absurd (cc)
get_valid_input-valid is_valid (none ∷ i) n rest h = get_valid_input-valid is_valid i n rest h
get_valid_input-valid is_valid (some k ∷ i) n rest h = elim (Bool-cases (is_valid k)) [
  | inl good ↦
      let first : get_valid_input is_valid (some k ∷ i) ≡ some (k, i) =
        rw (get_valid_input, good) refl in
      Yields-pure (λ m. is_valid m ≡ true) k good i n rest (sym first ∙ h)
  | inr bad ↦ get_valid_input-valid is_valid i n rest (sym (rw (get_valid_input, bad) refl) ∙ h)
]

ask_if-valid :
    (used : Bool) (old : ℕ) (is_valid : ℕ → Bool)
    → Yields (ask_if used old is_valid) (λ n. used ≡ true → is_valid n ≡ true)
unfolding ask_if
ask_if-valid true old is_valid i n rest h = λ _. get_valid_input-valid is_valid i n rest h
ask_if-valid false old is_valid i n rest h = λ u. absurd (cc)

Yields-then :
    {A B : Type 0} {P : A → Type 0} {Q : B → Type 0} (m : Ask A) (f : A → Ask B)
    → Yields m P
    → ((a : A) → P a → Yields (f a) Q)
    → Yields (m >>= f) Q
Yields-then m f hm hf i b rest h = elim (Option-cases (m i)) [
  | inl out ↦ absurd (let stuck : (m >>= f) i ≡ none = rw (out, ◌>>=◌) refl in cc)
  | inr (t, e) ↦ hf (t.0) (hm i (t.0) (t.1) e) (t.1) b rest (sym (rw (e, ◌>>=◌) refl) ∙ h)
]

-- The levels in use.
pub record AreBuilt (c : Config) : Type 0 where
  pub some_level : 1 ≤ c.num_lvls
  pub at_most_three : c.num_lvls ≤ 3
  pub level1 : IsBuilt c.lvl_size1 c.line_size c.assoc1
  pub level2 : 1 < c.num_lvls → IsBuilt c.lvl_size2 c.line_size c.assoc2
  pub level3 : 2 < c.num_lvls → IsBuilt c.lvl_size3 c.line_size c.assoc3

accepted-AreBuilt :
    (n l a1 a2 a3 s1 s2 s3 : ℕ) (policy : ReplacementPolicy)
    → is_valid_num_lvls n ≡ true
    → is_valid_line_size l ≡ true
    → is_valid_assoc a1 ≡ true
    → (ltb 1 n ≡ true → is_valid_assoc a2 ≡ true)
    → (ltb 2 n ≡ true → is_valid_assoc a3 ≡ true)
    → is_valid_lvl_size a1 l 2048 s1 ≡ true
    → (ltb 1 n ≡ true → is_valid_lvl_size a2 l 4096 s2 ≡ true)
    → (ltb 2 n ≡ true → is_valid_lvl_size a3 l 8192 s3 ≡ true)
    → AreBuilt (record {
      num_lvls = n;
      line_size = l;
      assoc1 = a1;
      assoc2 = a2;
      assoc3 = a3;
      lvl_size1 = s1;
      lvl_size2 = s2;
      lvl_size3 = s3;
      policy = policy;
    })
unfolding is_valid_num_lvls
accepted-AreBuilt n l a1 a2 a3 s1 s2 s3 policy hn hl ha1 ha2 ha3 hs1 hs2 hs3 = record {
  some_level = ground (arith, hn);
  at_most_three = ground (arith, hn);
  level1 = IsBuilt-accepted s1 l a1 2048 hl ha1 hs1 (omega arith);
  level2 = λ two.
      let used = lt→ltb 1 n two in
      IsBuilt-accepted s2 l a2 4096 hl (ha2 used) (hs2 used) (omega arith);
  level3 = λ three.
      let used = lt→ltb 2 n three in
      IsBuilt-accepted s3 l a3 8192 hl (ha3 used) (hs3 used) (omega arith);
}

configure_yields : (old : Config) → Yields (configure_cache_sim_parameters old) AreBuilt
unfolding configure_cache_sim_parameters
configure_yields old =
    Yields-then (get_valid_input is_valid_num_lvls) _ (get_valid_input-valid is_valid_num_lvls)
      (λ n hn.
        Yields-then (get_valid_input is_valid_line_size) _
          (get_valid_input-valid is_valid_line_size)
          (λ l hl.
            Yields-then (get_valid_input is_valid_assoc) _ (get_valid_input-valid is_valid_assoc)
              (λ a1 ha1.
                Yields-then (ask_if (ltb 1 n) old.assoc2 is_valid_assoc) _
                  (ask_if-valid (ltb 1 n) old.assoc2 is_valid_assoc)
                  (λ a2 ha2.
                    Yields-then (ask_if (ltb 2 n) old.assoc3 is_valid_assoc) _
                      (ask_if-valid (ltb 2 n) old.assoc3 is_valid_assoc)
                      (λ a3 ha3.
                        Yields-then (get_valid_input (is_valid_lvl_size a1 l 2048)) _
                          (get_valid_input-valid (is_valid_lvl_size a1 l 2048))
                          (λ s1 hs1.
                            Yields-then
                              (ask_if (ltb 1 n) old.lvl_size2 (is_valid_lvl_size a2 l 4096)) _
                              (ask_if-valid (ltb 1 n) old.lvl_size2 (is_valid_lvl_size a2 l 4096))
                              (λ s2 hs2.
                                Yields-then
                                  (ask_if (ltb 2 n) old.lvl_size3 (is_valid_lvl_size a3 l 8192)) _
                                  (ask_if-valid (ltb 2 n) old.lvl_size3
                                    (is_valid_lvl_size a3 l 8192))
                                  (λ s3 hs3.
                                    Yields-then (get_valid_input is_valid_algorithm_num) _
                                      (get_valid_input-valid is_valid_algorithm_num)
                                      (λ alg halg. Yields-pure AreBuilt _ (
                                        accepted-AreBuilt n l a1 a2 a3 s1 s2 s3
                                          (policy_of old.policy alg) hn hl ha1 ha2 ha3 hs1 hs2
                                          hs3))))))))))

-- When the questions have been answered, one to three levels are in use, and `cache_init` succeeds for
-- each of them: the level is valid, its counters are 0, its sets hold as many bytes as the answer, and
-- its line size and number of sets are powers of two below 2 ^ 32.
pub configure-AreBuilt :
    (old c : Config) (answers rest : List (Option ℕ))
    → configure_cache_sim_parameters old answers ≡ some (c, rest)
    → AreBuilt c
configure-AreBuilt old c answers rest = configure_yields old answers c rest
