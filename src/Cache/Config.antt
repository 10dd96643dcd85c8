-- ===== src/Cache/Config.antt =====
-- userspace/src/cache_simulator.c: the parameters of the simulation and the questions for them. What
-- `scanf` reads is an argument: the list of its answers, `none` where the text is no number.
pub mod Sizes
pub mod Accepts
use rpi_cpu_emulator_linux_d.Base.{
  ℕ, ◌*◌, Bool, true, false, ◌&&◌, ◌||◌, Option, none, some, List, [], ◌∷◌, ◌==◌, ltb, leb,
  if◌then◌else◌, u32,
}
use rpi_cpu_emulator_linux_d.Cache.Geometry.{is_power_of_two}
use rpi_cpu_emulator_linux_d.Cache.Level.{ReplacementPolicy, alg_lru, alg_optimal}

-- The static variables. The arrays have a field for each level.
pub record Config : Type 0 where
  pub num_lvls : ℕ
  pub line_size : ℕ
  pub assoc1 : ℕ
  pub assoc2 : ℕ
  pub assoc3 : ℕ
  pub lvl_size1 : ℕ
  pub lvl_size2 : ℕ
  pub lvl_size3 : ℕ
  pub policy : ReplacementPolicy

unfoldable pub is_valid_num_lvls : ℕ → Bool
is_valid_num_lvls num_lvls = leb 1 num_lvls && leb num_lvls 3

unfoldable pub is_valid_line_size : ℕ → Bool
is_valid_line_size line_size = line_size == 16 || (line_size == 32 || line_size == 64)

unfoldable pub is_valid_assoc : ℕ → Bool
is_valid_assoc assoc = is_power_of_two assoc && leb assoc 8

-- With the associativity of the level, the line size, and the greatest size of the level.
unfoldable pub is_valid_lvl_size : ℕ → ℕ → ℕ → ℕ → Bool
is_valid_lvl_size assoc line_size lvl_max_size lvl_size =
    is_power_of_two lvl_size
    && (leb (u32 (assoc * line_size)) lvl_size && leb lvl_size lvl_max_size)

unfoldable pub is_valid_algorithm_num : ℕ → Bool
is_valid_algorithm_num algorithm_num = algorithm_num == 1 || algorithm_num == 2

-- Questions use up answers; `none` is waiting for more.
abbrev pub Ask : Type 0 → Type 0
Ask A = List (Option ℕ) → Option (A × List (Option ℕ))

infixl 5 ◌>>=◌
abbrev pub ◌>>=◌ : {A B : Type 0} → Ask A → (A → Ask B) → Ask B
◌>>=◌ m f i = elim (m i) [ none ↦ none | some (a, i') ↦ f a i' ]

abbrev pub pure : {A : Type 0} → A → Ask A
pure a i = some (a, i)

-- Asks again until a number is valid.
unfoldable pub get_valid_input : (ℕ → Bool) → Ask ℕ
get_valid_input is_valid [] = none
get_valid_input is_valid (none ∷ answers) = get_valid_input is_valid answers
get_valid_input is_valid (some n ∷ answers) =
    let again = get_valid_input is_valid answers in if is_valid n then some (n, answers) else again

-- A question for a level that may not be in use; then its variable keeps the old value.
unfoldable pub ask_if : Bool → ℕ → (ℕ → Bool) → Ask ℕ
unfolding get_valid_input
ask_if true old is_valid answers = get_valid_input is_valid answers
ask_if false old is_valid answers = some (old, answers)

unfoldable pub policy_of : ReplacementPolicy → ℕ → ReplacementPolicy
policy_of old algorithm_num =
    if algorithm_num == 1 then alg_optimal else if algorithm_num == 2 then alg_lru else old

unfoldable pub configure_cache_sim_parameters : Config → Ask Config
unfolding get_valid_input ask_if policy_of
configure_cache_sim_parameters old = do
  num_lvls ← get_valid_input is_valid_num_lvls
  line_size ← get_valid_input is_valid_line_size
  assoc1 ← get_valid_input is_valid_assoc
  assoc2 ← ask_if (ltb 1 num_lvls) old.assoc2 is_valid_assoc
  assoc3 ← ask_if (ltb 2 num_lvls) old.assoc3 is_valid_assoc
  lvl_size1 ← get_valid_input (is_valid_lvl_size assoc1 line_size 2048)
  lvl_size2 ← ask_if (ltb 1 num_lvls) old.lvl_size2 (is_valid_lvl_size assoc2 line_size 4096)
  lvl_size3 ← ask_if (ltb 2 num_lvls) old.lvl_size3 (is_valid_lvl_size assoc3 line_size 8192)
  algorithm_num ← get_valid_input is_valid_algorithm_num
  pure (record {
    num_lvls = num_lvls;
    line_size = line_size;
    assoc1 = assoc1;
    assoc2 = assoc2;
    assoc3 = assoc3;
    lvl_size1 = lvl_size1;
    lvl_size2 = lvl_size2;
    lvl_size3 = lvl_size3;
    policy = policy_of old.policy algorithm_num;
  })
