-- ===== src/Assembler/Text.antt =====
-- userspace/src/assembler.c: the functions on strings. A string is the list of its bytes, without
-- the NUL at its end; `none` is the NULL pointer.
use rpi_cpu_emulator_linux_d.Base.{ℕ, suc, ◌+◌, ◌-◌, Bool, true, false, ◌&&◌, ◌||◌, not}
use rpi_cpu_emulator_linux_d.Base.{
  Option, none, some, List, [], ◌∷◌, ◌++◌, ◌==◌, ltb, leb, if◌then◌else◌, length, take, drop,
}

abbrev pub Text : Type 0
Text = List ℕ

-- `strcmp(a, b) == 0`
unfoldable pub text_eq : Text → Text → Bool
text_eq [] [] = true
text_eq [] (d ∷ ds) = false
text_eq (c ∷ cs) [] = false
text_eq (c ∷ cs) (d ∷ ds) = (c == d) && text_eq cs ds

-- `strchr(s, c) != NULL`
unfoldable pub contains : ℕ → Text → Bool
contains c [] = false
contains c (d ∷ ds) = (d == c) || contains c ds

-- The text before the first `c`, where `*strchr(s, c) = '\0'` ends it.
unfoldable pub cut_at : ℕ → Text → Text
cut_at c [] = []
cut_at c (d ∷ ds) = let rest = cut_at c ds in if d == c then [] else d ∷ rest

unfoldable pub remove_comment : Text → Text
unfolding cut_at
remove_comment line = cut_at b';' line

unfoldable pub is_empty : Text → Bool
is_empty [] = true
is_empty (c ∷ cs) =
    let rest = is_empty cs in if not (c == b' ') && not (c == b'\n') then c == b';' else rest

-- `none` is NULL; the allocation is taken to succeed.
unfoldable pub substring : Text → ℕ → ℕ → Option Text
substring str start end =
    if leb end start || ltb (length str) end
    then none
    else some (take (end - start) (drop start str))

-- The `memmove` loops that take leading spaces away.
unfoldable pub skip_spaces : Text → Text
skip_spaces [] = []
skip_spaces (c ∷ cs) = let rest = skip_spaces cs in if c == b' ' then rest else c ∷ cs

-- Spaces taken away from position `pos` on.
unfoldable pub skip_spaces_at : ℕ → Text → Text
unfolding skip_spaces
skip_spaces_at pos str = take pos str ++ skip_spaces (drop pos str)

-- The loop that looks for the end of a part: the text is the one from index `i` on, and `end_pos`
-- is the value so far.
unfoldable pub find_end : (ℕ → Bool) → Text → ℕ → ℕ → ℕ
find_end stops [] i end_pos = end_pos
find_end stops (c ∷ cs) i end_pos =
    let rest = find_end stops cs (suc i) end_pos in if stops c then i else rest

pub record Parts : Type 0 where
  pub part1 : Option Text
  pub part2 : Option Text
  pub part3 : Option Text

unfoldable pub split_by_char : Text → ℕ → Parts
unfolding skip_spaces skip_spaces_at find_end substring
split_by_char str0 delimiter =
    let str1 = skip_spaces str0 in
    let end1 = find_end (λ c. c == delimiter) str1 0 0 in
    let start2 = end1 + 1 in
    let str2 = skip_spaces_at start2 str1 in
    let end2 = find_end (λ c. c == delimiter) (drop start2 str2) start2 end1 in
    let start3 = end2 + 1 in
    let str3 = skip_spaces_at start3 str2 in
    let end3 = find_end (λ c. (c == delimiter) || (c == b'\n')) (drop start3 str3) start3 end2 in
    let last = if ltb end3 start3 then length str3 else end3 in
    record {
      part1 = substring str1 0 end1;
      part2 = substring str2 start2 end2;
      part3 = substring str3 start3 last;
    }

-- The copy ends before a newline at the end.
unfoldable pub remove_newline : Text → Text
remove_newline [] = []
remove_newline (c ∷ []) = if c == b'\n' then [] else c ∷ []
remove_newline (c ∷ d ∷ cs) = c ∷ remove_newline (d ∷ cs)
