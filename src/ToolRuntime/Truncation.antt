-- ===== src/ToolRuntime/Truncation.antt =====
-- tool_runtime/executor.rs: `truncate_utf8` and `truncate_utf8_with_marker`. `none` is a panic of
-- `String::truncate`.
pub mod Bounds
use mathlib.Core.Option
use git_client.Prelude.{
  ℕ, zero, suc, ◌+◌, ◌-◌, Bool, true, false, List, [], ◌∷◌, ◌++◌, Option, none, some, Text, codes,
  len, len_utf8, leb, min, if◌then◌else◌, is_char_boundary,
}

abbrev pub truncation_marker : Text
truncation_marker = codes "\n[tool result truncated]"

-- `while !content.is_char_boundary(end) { end -= 1 }`, which stops at 0.
last_boundary : Text → ℕ → ℕ
unfolding is_char_boundary
last_boundary s zero = zero
last_boundary s (suc end) =
    let rest = last_boundary s end in if is_char_boundary s (suc end) then suc end else rest

-- `String::truncate`.
pub slice_to : Text → ℕ → Option Text
slice_to s zero = some []
slice_to [] (suc b) = none
slice_to (c ∷ s) (suc b) =
    let rest = slice_to s (suc b - len_utf8 c) in
    if leb (len_utf8 c) (suc b) then Option.map (◌∷◌ c) rest else none

pub truncate_utf8 : Text → ℕ → Option (Text × Bool)
unfolding last_boundary slice_to
truncate_utf8 content max_bytes =
    if leb (len content) max_bytes
    then some (content, false)
    else Option.map (λ t. (t, true))
        (slice_to content (last_boundary content (min max_bytes (len content))))

pub truncate_utf8_with_marker : Text → ℕ → Option (Text × Bool)
unfolding truncate_utf8
truncate_utf8_with_marker content max_bytes =
    if leb (len content) max_bytes
    then some (content, false)
    else if leb max_bytes (len truncation_marker)
    then truncate_utf8 content max_bytes
    else Option.map (λ p. (p.0 ++ truncation_marker, true))
        (truncate_utf8 content (max_bytes - len truncation_marker))
