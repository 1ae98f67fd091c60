-- ===== src/Session/Compactor.antt =====
-- session.rs: the extractive compactor, which keeps the end of what does not fit.
pub mod Truncation
pub mod Extractive
mod Tests
use git_client.Prelude.{
  is_char_boundary, ℕ, zero, suc, ◌+◌, ◌-◌, Bool, true, false, ◌&&◌, not, List, [], ◌∷◌, ◌++◌, map,
  Option, none, some, Text, codes, len, len_utf8, is_empty, is_whitespace, ltb, leb, ◌==◌,
  if◌then◌else◌, Result, ok, err, ok_or,
}
use git_client.Session.{SessionRole, user, assistant, SessionMessage, SessionError, compaction}

-- `split_whitespace`, with the word being read.
add_word : Text → List Text → List Text
add_word [] ws = ws
add_word (c ∷ w) ws = (c ∷ w) ∷ ws

words_from : Text → Text → List Text
unfolding add_word
words_from w [] = add_word w []
words_from w (c ∷ s) =
    if is_whitespace c then add_word w (words_from [] s) else words_from (w ++ c ∷ []) s

pub join : Text → List Text → Text
join sep [] = []
join sep (w ∷ []) = w
join sep (w ∷ v ∷ ws) = w ++ (sep ++ join sep (v ∷ ws))

pub normalize_whitespace : Text → Text
unfolding words_from join
normalize_whitespace value = join (codes " ") (words_from [] value)

-- `&value[boundary..]`, which panics between the bytes of a character.
pub slice_from : Text → ℕ → Option Text
slice_from s zero = some s
slice_from [] (suc b) = none
slice_from (c ∷ s) (suc b) =
    let rest = slice_from s (suc b - len_utf8 c) in if leb (len_utf8 c) (suc b) then rest else none

-- `while boundary < value.len() && !value.is_char_boundary(boundary)`; the bytes behind the boundary
-- bound the rounds.
pub next_boundary : ℕ → Text → ℕ → ℕ
next_boundary zero value boundary = boundary
next_boundary (suc f) value boundary =
    let rest = next_boundary f value (boundary + 1) in
    if ltb boundary (len value) && not (is_char_boundary value boundary) then rest else boundary

pub truncate_utf8_suffix : Text → ℕ → Option Text
unfolding next_boundary slice_from is_char_boundary
truncate_utf8_suffix value max_bytes =
    if leb (len value) max_bytes
    then some value
    else slice_from value (next_boundary max_bytes value (len value - max_bytes))

pub role_name : SessionRole → Text
role_name user = codes "user"
role_name assistant = codes "assistant"

message_section : SessionMessage → Text
message_section m = role_name m.role ++ (codes ": " ++ normalize_whitespace m.content)

existing_sections : Option Text → List Text
existing_sections none = []
existing_sections (some s) = if is_empty s then [] else s ∷ []

abbrev pub marker : Text
marker = codes "[older memory truncated]\n"

fit : Text → ℕ → Option (Result SessionError Text)
fit combined max_bytes =
    if leb (len combined) max_bytes
    then some (ok combined)
    else if leb max_bytes (len marker)
    then some (err compaction)
    else elim (truncate_utf8_suffix combined (max_bytes - len marker)) [
      | none ↦ none
      | some suffix ↦ some (ok (marker ++ suffix))
    ]

-- `ExtractiveMemoryCompactor::compact`; `none` is a panic of the slice.
pub compact : Option Text → List SessionMessage → ℕ → Option (Result SessionError Text)
compact existing_summary messages max_bytes =
    if max_bytes == 0
    then some (err compaction)
    else fit
        (join (codes "\n") (existing_sections existing_summary ++ map message_section messages))
        max_bytes
