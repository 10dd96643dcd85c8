-- ===== src/Cache/Access/Level.antt =====
-- userspace/src/cache_simulator.c: `cache_access` on a whole level.
use rpi_cpu_emulator_linux_d.Base.{
  ℕ, ◌+◌, ◌/◌, ◌-◌, ◌≤◌, ◌<◌, ◌≡◌, ◌≢◌, ◌^◌, ◌⊎◌, inl, inr, refl, sym, ap, ◌∙◌, arith,
}
use rpi_cpu_emulator_linux_d.Base.{
  Bool, true, some, Option, List, [], ◌∷◌, length, set, get_elem?, get_elem?_total, lt_of_get_elem?,
  get_elem?-set_self, get_elem?-set_ne, length-set, Bool-cases, if◌then◌else◌, u32, u64,
  bit_and-le_right,
}
use mathlib.Core.Option.{some-injective}
use native.Mathlib.Decide.{ℕ_discrete}
use native.Mathlib.Nat.{mod-lt}
use mathlib.Core.Path.{subst}
use rpi_cpu_emulator_linux_d.Uapi.{MemAccess}
use rpi_cpu_emulator_linux_d.Cache.Geometry.{fast_log2, set_index, line_tag}
use rpi_cpu_emulator_linux_d.Cache.Level.{
  ReplacementPolicy, CacheLine, CacheSet, CacheLevel, find_line, uint32_max,
}
use rpi_cpu_emulator_linux_d.Cache.Level.Search.{find_line_total}
use rpi_cpu_emulator_linux_d.Cache.Optimal.{find_optimal_victim}
use rpi_cpu_emulator_linux_d.Cache.Access.{access_set, cache_access}
use rpi_cpu_emulator_linux_d.Cache.Access.Set.{IsAccess, access_set-IsAccess}
use rpi_cpu_emulator_linux_d.Cache.Level.Valid.{HasLines, IsValid}

-- The line that a set holds for a tag, or that it holds none.
abbrev pub HoldsTag : ℕ → CacheSet → Type 0
HoldsTag tag s =
    (j : ℕ) × (l : CacheLine) × (get_elem? s j ≡ some l) × (l.valid ≡ true) × (l.tag ≡ tag)

abbrev pub LacksTag : ℕ → CacheSet → Type 0
LacksTag tag s = (j : ℕ) (l : CacheLine) → get_elem? s j ≡ some l → l.valid ≡ true → l.tag ≢ tag

-- What an access to a level must do: it succeeds and keeps the level valid, it counts once, as a hit
-- if the set of the address held its line and as a miss if not, and a second access to the address
-- would find the line.
pub record IsCounted (line_size num_sets address : ℕ) (c : CacheLevel)
    (result : Option (CacheLevel × ℕ)) : Type 0 where
  pub after : CacheLevel
  pub time : ℕ
  pub returns : result ≡ some (after, time)
  pub is_valid : IsValid after
  pub before : CacheSet
  pub was_at_index : get_elem? c.sets (set_index line_size num_sets address) ≡ some before
  pub counts :
      (HoldsTag (line_tag line_size num_sets address) before
        × (after.hits ≡ c.hits + 1)
        × (after.misses ≡ c.misses))
      ⊎ (LacksTag (line_tag line_size num_sets address) before
          × (after.hits ≡ c.hits)
          × (after.misses ≡ c.misses + 1))
  pub cached : CacheSet
  pub at_index : get_elem? after.sets (set_index line_size num_sets address) ≡ some cached
  pub resident : (k : ℕ) × (find_line (line_tag line_size num_sets address) cached 0 ≡ some k)

set_index-lt :
    (line_size num_sets address : ℕ)
    → 0 < num_sets
    → set_index line_size num_sets address < num_sets
unfolding set_index
set_index-lt line_size num_sets address pos =
    omega (arith, pos, bit_and-le_right (address / 2 ^ fast_log2 line_size) (num_sets - 1))

-- The set of the address in a valid level.
module _ (c : CacheLevel) (valid : IsValid c) (address : ℕ) where
  indexed_set :
      (s : CacheSet) × (get_elem? c.sets (set_index c.line_size c.num_sets address) ≡ some s)
  indexed_set =
      get_elem?_total c.sets (set_index c.line_size c.num_sets address)
        (omega (arith, valid.has_sets, set_index-lt c.line_size c.num_sets address valid.some_set))

nonempty : (s : CacheSet) → 0 < length s → ¬ (s ≡ [])
nonempty [] h = absurd (omega arith)
nonempty (x ∷ s) h = λ e. cc

-- An access keeps the form of the set.
IsAccess-IsSet :
    {tag time assoc : ℕ} {s : CacheSet} {after : CacheSet × Bool}
    → HasLines assoc s
    → time ≤ uint32_max
    → IsAccess tag time s after
    → HasLines assoc after.0
IsAccess-IsSet {tag = tag} {time = time} {after = after} is_set fits a = record {
  has_lines = a.replaces.same_length ∙ is_set.has_lines;
  times_fit = λ j l g. elim (ℕ_discrete j a.index) [
    | yes e ↦
        new_time j l (ap (λ n. get_elem? after.0 n) {x = j} {y = a.index} e ∙ a.replaces.is_there) g
    | no ne ↦ is_set.times_fit j l (sym (a.replaces.others j ne) ∙ g)
  ];
}
  where
    new_time :
        (j : ℕ) (l : CacheLine)
        → get_elem? after.0 j ≡ some (record { tag = tag; valid = true; last_used = time })
        → get_elem? after.0 j ≡ some l
        → l.last_used ≤ uint32_max
    new_time j l there g =
        let new : CacheLine = record { tag = tag; valid = true; last_used = time } in
        omega (arith, fits, ap (λ y. y.last_used) (some-injective new l (sym there ∙ g)))

-- The level after an access, with what became of the set.
abbrev level_after : CacheLevel → ℕ → CacheSet → Bool → CacheLevel
level_after c index s hit = record c {
  sets = set c.sets index s;
  hits = if hit then u64 (c.hits + 1) else c.hits;
  misses = if hit then c.misses else u64 (c.misses + 1);
}

-- What is left to show of an access, once the set `s` of the address has become `s'`.
counted :
    (c : CacheLevel) (valid : IsValid c) (address time : ℕ) (s : CacheSet) (after : CacheSet × Bool)
    → c.hits + c.misses + 1 < 2 ^ 64
    → time ≤ uint32_max
    → get_elem? c.sets (set_index c.line_size c.num_sets address) ≡ some s
    → IsAccess (line_tag c.line_size c.num_sets address) time s after
    → IsCounted c.line_size c.num_sets address c
        (some (level_after c (set_index c.line_size c.num_sets address) after.0 after.1, time))
counted c valid address time s after fits time_fits g a = record {
  after = level_after c index after.0 after.1;
  time = time;
  returns = refl;
  is_valid = record {
    some_line = valid.some_line;
    some_set = valid.some_set;
    has_sets = length-set c.sets index after.0 ∙ valid.has_sets;
    are_sets = λ i s' g'. set_at i s' g';
  };
  before = s;
  was_at_index = g;
  counts = count;
  cached = after.0;
  at_index = get_elem?-set_self c.sets index after.0 (lt_of_get_elem? c.sets index g);
  resident = find_line_total tag after.0 0 a.index new a.replaces.is_there refl refl;
}
  where
    index : ℕ
    index = set_index c.line_size c.num_sets address

    tag : ℕ
    tag = line_tag c.line_size c.num_sets address

    new : CacheLine
    new = record { tag = tag; valid = true; last_used = time }

    is_set : HasLines c.associativity after.0
    is_set = IsAccess-IsSet (valid.are_sets index s g) time_fits a

    set_at :
        (i : ℕ) (s' : CacheSet)
        → get_elem? (set c.sets index after.0) i ≡ some s'
        → HasLines c.associativity s'
    set_at i s' g' = elim (ℕ_discrete i index) [
      | yes e ↦
          let there : get_elem? (set c.sets index after.0) i ≡ some after.0 =
            ap (λ n. get_elem? (set c.sets index after.0) n) {x = i} {y = index} e
            ∙ get_elem?-set_self c.sets index after.0 (lt_of_get_elem? c.sets index g) in
          subst (HasLines c.associativity) (some-injective after.0 s' (sym there ∙ g')) is_set
      | no ne ↦ valid.are_sets i s' (sym (get_elem?-set_ne c.sets after.0 (λ e. ne (sym e))) ∙ g')
    ]

    count :
        (HoldsTag tag s
          × ((if after.1 then u64 (c.hits + 1) else c.hits) ≡ c.hits + 1)
          × ((if after.1 then c.misses else u64 (c.misses + 1)) ≡ c.misses))
        ⊎ (LacksTag tag s
            × ((if after.1 then u64 (c.hits + 1) else c.hits) ≡ c.hits)
            × ((if after.1 then c.misses else u64 (c.misses + 1)) ≡ c.misses + 1))
    count = elim (Bool-cases after.1) [
      | inl hit ↦ inl (
        (a.index, a.old, a.replaces.was_there, (a.on_hit hit).0, (a.on_hit hit).1),
        ground (arith, hit, fits),
        ground (arith, hit),
      )
      | inr miss ↦ inr (a.on_miss miss, ground (arith, miss), ground (arith, miss, fits))
    ]

-- An access to a valid level succeeds: its set is one of the array, the level stays valid, and the line
-- of the address is in its set afterwards. The access counts once: as a hit if a valid line with the tag
-- of the address was in the set before, and as a miss if there was none. The counters must be below
-- their bound.
pub cache_access-IsCounted :
    (policy : ReplacementPolicy) (global_timer : ℕ) (c : CacheLevel) (t : MemAccess)
    (future : List MemAccess) (current_idx : ℕ)
    → IsValid c
    → c.hits + c.misses + 1 < 2 ^ 64
    → IsCounted c.line_size c.num_sets t.addr c
        (cache_access policy global_timer c t future current_idx)
unfolding cache_access
cache_access-IsCounted policy global_timer c t future current_idx valid fits =
    let (s, g) = indexed_set c valid t.addr in
    let tag = line_tag c.line_size c.num_sets t.addr in
    let time = u32 (global_timer + 1) in
    let is_set = valid.are_sets (set_index c.line_size c.num_sets t.addr) s g in
    rw (cache_access, g)
      (counted c valid t.addr time s
        (access_set policy (λ s. find_optimal_victim c.line_size c.num_sets s future current_idx)
          tag time s)
        fits (omega (arith, mod-lt (global_timer + 1) {m = 2 ^ 32} (omega arith))) g
        (access_set-IsAccess policy c.line_size c.num_sets future current_idx tag time s
          (nonempty s (omega (arith, is_set.has_lines, valid.some_line))) is_set.times_fit))
