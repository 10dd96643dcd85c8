-- ===== src/Cache/Access/Set.antt =====
-- userspace/src/cache_simulator.c: what `cache_access` does to the set of the address.
use rpi_cpu_emulator_linux_d.Base.{ℕ, zero, suc, ◌≤◌, ◌≡◌, ◌≢◌, inl, inr, refl, ap, ◌∙◌, arith}
use rpi_cpu_emulator_linux_d.Base.{
  Bool, true, false, none, some, List, [], ◌∷◌, length, get_elem?, Option-cases,
}
use mathlib.Core.Option.{some-injective}
use rpi_cpu_emulator_linux_d.Uapi.{MemAccess}
use rpi_cpu_emulator_linux_d.Cache.Level.{
  ReplacementPolicy, alg_lru, alg_optimal, CacheLine, CacheSet, find_line, find_empty, lru_victim,
  uint32_max,
}
use rpi_cpu_emulator_linux_d.Cache.Level.Search.{
  FoundAt, find_line-FoundAt, find_empty-FoundAt, find_empty-none, find_line_total,
  lru_victim-Oldest,
}
use rpi_cpu_emulator_linux_d.Cache.Optimal.{find_optimal_victim}
use rpi_cpu_emulator_linux_d.Cache.Optimal.Victim.{find_optimal_victim-Furthest}
use rpi_cpu_emulator_linux_d.Cache.Access.{touch, set_line, evict, access_set}

-- The set `s'` has a line in place of line `k` of `s`, and no other change.
pub record Replaces (s s' : CacheSet) (k : ℕ) (old new : CacheLine) : Type 0 where
  pub was_there : get_elem? s k ≡ some old
  pub is_there : get_elem? s' k ≡ some new
  pub same_length : length s' ≡ length s
  pub others : (j : ℕ) → j ≢ k → get_elem? s' j ≡ get_elem? s j

set_line-Replaces :
    (s : CacheSet) (k : ℕ) (f : CacheLine → CacheLine) (l : CacheLine)
    → get_elem? s k ≡ some l
    → Replaces s (set_line s k f) k l (f l)
unfolding set_line
set_line-Replaces [] k f l g = absurd (cc)
set_line-Replaces (x ∷ s) zero f l g = record {
  was_there = g;
  is_there = ap (λ y. some (f y)) (some-injective x l g);
  same_length = refl;
  others = elim [ zero ↦ λ ne. absurd (ne refl) | suc j ↦ λ ne. refl ];
}
set_line-Replaces (x ∷ s) (suc k) f l g =
    let rest = set_line-Replaces s k f l g in
    record {
      was_there = g;
      is_there = rest.is_there;
      same_length = ap suc rest.same_length;
      others = elim [ zero ↦ λ ne. refl | suc j ↦ λ ne. rest.others j (λ e. ne (ap suc e)) ];
    }

-- What an access with the tag at `time` must do to a set: the line of the tag is there afterwards
-- with the new time, one line at most has changed, and a line with another tag gives way only when
-- all lines of the set are valid.
pub record IsAccess (tag time : ℕ) (s : CacheSet) (after : CacheSet × Bool) : Type 0 where
  pub index : ℕ
  pub old : CacheLine
  pub replaces : Replaces s after.0 index old (record { tag = tag; valid = true; last_used = time })
  pub on_hit : after.1 ≡ true → (old.valid ≡ true) × (old.tag ≡ tag)
  pub on_miss :
      after.1 ≡ false
      → ((j : ℕ) (l : CacheLine) → get_elem? s j ≡ some l → l.valid ≡ true → l.tag ≢ tag)
  pub on_evict :
      after.1 ≡ false
      → old.valid ≡ true
      → (j : ℕ) (l : CacheLine) → get_elem? s j ≡ some l
      → l.valid ≡ true

found_there : {s : CacheSet} {k : ℕ} (f : FoundAt s 0 k) → get_elem? s k ≡ some f.line
found_there {s = s} {k = k} f =
    ap (λ n. get_elem? s n) {x = k} {y = f.offset} (omega (arith, f.at_offset)) ∙ f.is_there

-- The new line by its fields.
with_fields :
    {s s' : CacheSet} {k tag time : ℕ} {old new : CacheLine}
    → Replaces s s' k old new
    → new.tag ≡ tag
    → new.valid ≡ true
    → new.last_used ≡ time
    → Replaces s s' k old (record { tag = tag; valid = true; last_used = time })
with_fields r t v u = record {
  was_there = r.was_there;
  is_there = r.is_there ∙ ap some (λ i. record { tag = t i; valid = v i; last_used = u i });
  same_length = r.same_length;
  others = r.others;
}

hit_case :
    (tag time : ℕ) (s : CacheSet) (i : ℕ)
    → find_line tag s 0 ≡ some i
    → IsAccess tag time s (set_line s i (touch time), true)
unfolding touch
hit_case tag time s i e =
    let (f, v, t) = find_line-FoundAt tag s 0 i e in
    let there : get_elem? s i ≡ some f.line = found_there f in
    let step = set_line-Replaces s i (touch time) f.line there in
    record {
      index = i;
      old = f.line;
      replaces = with_fields step t v refl;
      on_hit = λ _. (v, t);
      on_miss = λ no. absurd (cc);
      on_evict = λ no. absurd (cc);
    }

-- No line of the set has the tag where the hit check fails.
not_found :
    (tag : ℕ) (s : CacheSet)
    → find_line tag s 0 ≡ none
    → (j : ℕ) (l : CacheLine) → get_elem? s j ≡ some l
    → l.valid ≡ true
    → l.tag ≢ tag
not_found tag s e j l g v t = let (k, found) = find_line_total tag s 0 j l g v t in absurd (cc)

empty_case :
    (tag time : ℕ) (s : CacheSet) (i : ℕ)
    → find_line tag s 0 ≡ none
    → find_empty s 0 ≡ some i
    → IsAccess tag time s
        (set_line s i (λ l. record { tag = tag; valid = true; last_used = time }), false)
empty_case tag time s i miss e =
    let (f, v) = find_empty-FoundAt s 0 i e in
    let there : get_elem? s i ≡ some f.line = found_there f in
    record {
      index = i;
      old = f.line;
      replaces =
          set_line-Replaces s i (λ l. record { tag = tag; valid = true; last_used = time }) f.line
            there;
      on_hit = λ no. absurd (cc);
      on_miss = λ _. not_found tag s miss;
      on_evict = λ _ full. absurd (cc);
    }

evict_case :
    (tag time : ℕ) (s : CacheSet) (i : ℕ)
    → FoundAt s 0 i
    → find_line tag s 0 ≡ none
    → find_empty s 0 ≡ none
    → IsAccess tag time s (set_line s i (λ l. record l { tag = tag; last_used = time }), false)
evict_case tag time s i f miss e =
    let there : get_elem? s i ≡ some f.line = found_there f in
    let step = set_line-Replaces s i (λ l. record l { tag = tag; last_used = time }) f.line there in
    record {
      index = i;
      old = f.line;
      replaces = with_fields step refl (find_empty-none s 0 i f.line e there) refl;
      on_hit = λ no. absurd (cc);
      on_miss = λ _. not_found tag s miss;
      on_evict = λ _ _ j l g. find_empty-none s 0 j l e g;
    }

policy_case :
    (policy : ReplacementPolicy) (line_size num_sets : ℕ) (future : List MemAccess)
    (current_idx : ℕ) (tag time : ℕ) (s : CacheSet)
    → ¬ (s ≡ [])
    → ((j : ℕ) (l : CacheLine) → get_elem? s j ≡ some l → l.last_used ≤ uint32_max)
    → find_line tag s 0 ≡ none
    → find_empty s 0 ≡ none
    → IsAccess tag time s (
      evict policy (λ s. find_optimal_victim line_size num_sets s future current_idx) tag time s,
      false,
    )
unfolding evict
policy_case alg_lru line_size num_sets future current_idx tag time s some_line small miss full =
    evict_case tag time s (lru_victim s) (lru_victim-Oldest s some_line small).0 miss full
policy_case alg_optimal line_size num_sets future current_idx tag time s some_line small miss full =
    evict_case tag time s (find_optimal_victim line_size num_sets s future current_idx)
      (find_optimal_victim-Furthest line_size num_sets s future current_idx some_line).0 miss full

-- An access to a set with lines, whose times fit in 32 bits, for both policies: afterwards a line of
-- the set has the tag and the new time and is valid, and no other line has changed. A hit found this
-- line with the tag before; a miss means that no valid line had the tag, and it replaces a valid line
-- only if all lines are valid.
pub access_set-IsAccess :
    (policy : ReplacementPolicy) (line_size num_sets : ℕ) (future : List MemAccess)
    (current_idx : ℕ) (tag time : ℕ) (s : CacheSet)
    → ¬ (s ≡ [])
    → ((j : ℕ) (l : CacheLine) → get_elem? s j ≡ some l → l.last_used ≤ uint32_max)
    → IsAccess tag time s (
        access_set policy
          (λ s. find_optimal_victim line_size num_sets s future current_idx)
          tag
          time
          s)
unfolding access_set
access_set-IsAccess policy line_size num_sets future current_idx tag time s some_line small =
    elim (Option-cases (find_line tag s 0)) [
      | inr (i, hit) ↦ rw (access_set, hit) (hit_case tag time s i hit)
      | inl miss ↦ elim (Option-cases (find_empty s 0)) [
        | inr (i, e) ↦ rw (access_set, miss, e) (empty_case tag time s i miss e)
        | inl full ↦
            rw (access_set, miss, full)
              (policy_case policy line_size num_sets future current_idx tag time s some_line small
                miss full)
      ]
    ]
