-- ===== src/Client/Transport/Sse/Stream.antt =====
-- sse.ts: the loop of #run that cuts the decoded stream into events, and the lines of #event. A text is
-- the list of its code units.
use converger.Prelude.{
  ℕ, zero, suc, Option, none, some, List, [], ◌∷◌, ◌++◌, length, if◌then◌else◌, nat_eq, ◌==◌, ◌&&◌,
}

abbrev pub Text : Type 0
Text = List ℕ

-- `\r?\n` at the start of a text, and what follows it.
unfoldable pub newline_at : Text → Option Text
newline_at [] = none
newline_at (a ∷ []) = if a == 10 then some [] else none
newline_at (a ∷ b ∷ s) =
    if a == 10 then some (b ∷ s) else if (a == 13) && (b == 10) then some s else none

-- `\r?\n\r?\n` at the start of a text, and what follows it.
unfoldable pub boundary_at : Text → Option Text
unfolding newline_at
boundary_at s = elim (newline_at s) [ none ↦ none | some r ↦ newline_at r ]

abbrev pub with_head : ℕ → Option (Text × Text) → Option (Text × Text)
with_head c none = none
with_head c (some (a, r)) = some (c ∷ a, r)

-- `buffer.search(...)` with the two slices: what stands before the first boundary, and after it.
unfoldable pub split_boundary : Text → Option (Text × Text)
split_boundary [] = none
split_boundary (c ∷ s) =
    let later = with_head c (split_boundary s) in
    elim (boundary_at (c ∷ s)) [ none ↦ later | some r ↦ some ([], r) ]

-- The inner `while`, on fuel: the chunks that are complete, and the buffer that is left.
unfoldable pub drain : ℕ → Text → List Text × Text
drain zero buffer = ([], buffer)
drain (suc fuel) buffer = elim (split_boundary buffer) [
  | none ↦ ([], buffer)
  | some (chunk, rest) ↦ let (chunks, left) = drain fuel rest in (chunk ∷ chunks, left)
]

-- A round of the outer loop, on what `read` gave.
unfoldable pub feed : Text → Text → List Text × Text
feed buffer value = let s = buffer ++ value in drain (length s) s

-- The outer loop, over what the reads gave.
unfoldable pub feed_all : Text → List Text → List Text × Text
feed_all buffer [] = ([], buffer)
feed_all buffer (value ∷ values) =
    let (chunks, left) = feed buffer value in
    let (later, end) = feed_all left values in (chunks ++ later, end)

abbrev pub push_char : ℕ → List Text → List Text
push_char a [] = (a ∷ []) ∷ []
push_char a (l ∷ ls) = (a ∷ l) ∷ ls

-- `chunk.split(/\r?\n/)`
unfoldable pub split_lines : Text → List Text
split_lines [] = [] ∷ []
split_lines (a ∷ []) = if a == 10 then [] ∷ [] ∷ [] else (a ∷ []) ∷ []
split_lines (a ∷ b ∷ s) =
    let next = split_lines (b ∷ s) in
    let after = split_lines s in
    if a == 10 then [] ∷ next else if (a == 13) && (b == 10) then [] ∷ after else push_char a next

-- `line.startsWith("data:")` and `line.slice(5)`
unfoldable pub data_of : Text → Option Text
data_of (a ∷ b ∷ c ∷ d ∷ e ∷ s) =
    if (a == 100) && ((b == 97) && ((c == 116) && ((d == 97) && (e == 58)))) then some s else none
data_of _ = none

-- `.replace(/^ /, "")`
unfoldable pub drop_space : Text → Text
drop_space [] = []
drop_space (a ∷ s) = if a == 32 then s else a ∷ s

-- The data lines of a chunk.
unfoldable pub data_lines : List Text → List Text
unfolding data_of drop_space
data_lines [] = []
data_lines (line ∷ lines) =
    let rest = data_lines lines in
    elim (data_of line) [ none ↦ rest | some s ↦ drop_space s ∷ rest ]

-- `data.join("\n")`
unfoldable pub join_lines : List Text → Text
join_lines [] = []
join_lines (l ∷ []) = l
join_lines (l ∷ m ∷ ls) = l ++ (10 ∷ join_lines (m ∷ ls))

-- What #event hands to `JSON.parse`; none where it returns at once.
unfoldable pub payload : Text → Option Text
unfolding split_lines data_lines join_lines
payload chunk = elim (data_lines (split_lines chunk)) [
  | [] ↦ none
  | l ∷ ls ↦ some (join_lines (l ∷ ls))
]
