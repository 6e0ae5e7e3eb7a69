-- ===== src/Llm/Reply.antt =====
-- internal/llm/streaming.go: what is read from a model's answer. Texts are lists of code points.
-- strings and regexp are Go's standard library, translated as far as they are used; json.Unmarshal
-- into a list of strings is a parameter.
pub mod Short
pub mod Fence
use cali_go_stack.Base.{
  ℕ, zero, suc, ◌+◌, ◌||◌, ◌&&◌, Bool, true, false, not, Option, none, some, List, [], ◌∷◌, ◌++◌,
  ◌>>=◌, nat_eq, leb, codes, if◌then◌else◌, is_nil, trim, trim_left, cut,
}
use cali_go_stack.Queue.Registry.{Failure}

abbrev pub Text : Type 0
Text = List ℕ

-- unicode.IsSpace
unfoldable pub is_space : ℕ → Bool
is_space c =
    (leb 9 c && leb c 13)
    || (nat_eq c 32
        || (nat_eq c 133
            || (nat_eq c 160
                || (nat_eq c 5760
                    || ((leb 8192 c && leb c 8202)
                        || (nat_eq c 8232
                            || (nat_eq c 8233
                                || (nat_eq c 8239 || (nat_eq c 8287 || nat_eq c 12288)))))))))

-- strings.TrimSpace
abbrev pub trim_space : Text → Text
trim_space = trim is_space

unfoldable pub has_prefix : (prefix : Text) → Text → Bool
has_prefix [] s = true
has_prefix (p ∷ ps) [] = false
has_prefix (p ∷ ps) (c ∷ cs) = nat_eq p c && has_prefix ps cs

abbrev pub fence : Text
fence = codes "```"

abbrev pub newline : ℕ
newline = 10

-- What stands before the last fence.
unfoldable pub before_last_fence : Text → Option Text
before_last_fence [] = none
before_last_fence (c ∷ cs) = elim (before_last_fence cs) [
  | some before ↦ some (c ∷ before)
  | none ↦ if has_prefix fence (c ∷ cs) then some [] else none
]

-- A first line is cut off where the newline is not the first character.
abbrev without_first_line : Text → Option (Text × Text) → Text
without_first_line s none = s
without_first_line s (some (before, after)) = if is_nil before then s else after

abbrev up_to : Text → Option Text → Text
up_to s none = s
up_to s (some before) = if is_nil before then s else before

unfoldable pub strip_code_fence : Text → Text
strip_code_fence s =
    let s' = without_first_line s (cut newline s) in trim_space (up_to s' (before_last_fence s'))

-- '[' and ']'
abbrev pub open_bracket : ℕ
open_bracket = 91

abbrev pub close_bracket : ℕ
close_bracket = 93

-- The leftmost match of `\[.*?\]`: from the first '[' to the first ']' behind it.
unfoldable pub first_array : Text → Option Text
first_array s = do
  opened ← cut open_bracket s
  closed ← cut close_bracket opened.1
  some (open_bracket ∷ (closed.0 ++ close_bracket ∷ []))

-- The loops that keep up to three items, leaving out the empty ones: how many may come, and `f` for
-- what is done with each.
unfoldable pub keep : (f : Text → Text) → ℕ → List Text → List Text
keep f zero ts = []
keep f (suc n) [] = []
keep f (suc n) (t ∷ ts) = elim (is_nil (f t)) [
  | true ↦ keep f (suc n) ts
  | false ↦ f t ∷ keep f n ts
]

abbrev pub max_items : ℕ
max_items = 3

-- A list that json.Unmarshal reads from the text; `none` is an error.
abbrev pub Decoder : Type 0
Decoder = Text → Option (List Text)

-- The answer without white space round it, and without a fence.
abbrev pub cleaned : Text → Text
cleaned raw = let s = trim_space raw in if has_prefix fence s then strip_code_fence s else s

abbrev pub items_of : Decoder → Option Text → Option (List Text)
items_of decode array = do
  found ← array
  items ← decode found
  some (keep trim_space max_items items)

unfoldable pub parse_string_array : Decoder → Text → Option (List Text)
parse_string_array decode raw = items_of decode (first_array (cleaned raw))

-- strings.SplitSeq by newlines
unfoldable pub split : (c : ℕ) → Text → List Text
split c [] = [] ∷ []
split c (d ∷ ds) = elim (split c ds) [
  | [] ↦ []
  | line ∷ lines ↦ if nat_eq d c then [] ∷ line ∷ lines else (d ∷ line) ∷ lines
]

-- One of "-* \t".
abbrev pub is_bullet : ℕ → Bool
is_bullet c = nat_eq c 45 || (nat_eq c 42 || (nat_eq c 32 || nat_eq c 9))

unfoldable pub split_lines : Text → List Text
split_lines s = keep (λ line. trim_left is_bullet (trim_space line)) max_items (split newline s)

-- What Read answers beside the bytes.
pub data ReadEnd : Type 0 where
  more : ReadEnd
  eof : ReadEnd
  read_failed : Failure → ReadEnd

-- How ConsumeStream ends.
pub data Consumed : Type 0 where
  done : Consumed
  callback_failed : Failure → Consumed
  stream_failed : Failure → Consumed

-- The loop of ConsumeStream over the answers of Read; `none` where it still waits for one. `fn` changes
-- a state and answers an error or none.
module _ {A : Type 0} (fn : Text → A → Option Failure × A) where
  abbrev offered : Text → A → Option Failure × A
  offered [] a = (none, a)
  offered (c ∷ cs) a = fn (c ∷ cs) a

  -- After the callback: the next read, or the end.
  abbrev settled : ReadEnd → (A → Option Consumed × A) → Option Failure × A → Option Consumed × A
  settled end next (some e, a) = (some (callback_failed e), a)
  settled more next (none, a) = next a
  settled eof next (none, a) = (some done, a)
  settled (read_failed e) next (none, a) = (some (stream_failed e), a)

  unfoldable pub consume_stream : List (Text × ReadEnd) → A → Option Consumed × A
  consume_stream [] a = (none, a)
  consume_stream ((chunk, end) ∷ reads) a = settled end (consume_stream reads) (offered chunk a)
