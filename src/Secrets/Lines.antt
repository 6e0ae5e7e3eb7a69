-- ===== src/Secrets/Lines.antt =====
-- What a file of secrets means, line by line.
use mathlib.Core.List.{append_assoc, append-nil}
use cali_go_stack.Base.{
  ◌≡◌, refl, ap, ◌∙◌, false, none, some, List, [], ◌∷◌, ◌++◌, nat_eq, arith, Without,
  Without-append, cut-append, IsTrimmed, first_is, last_is, last_is-append, trim_lem, trim_left,
  trim_right,
}
use cali_go_stack.Queue.Chan.{Bytes}
use cali_go_stack.Secrets.{
  newline, equals, hash, is_blank, is_empty, EnvLine, parse_line, keep_line, lines_from,
  parse_env_lines,
}

-- A line that parses, and lines that are passed over.
pub data Written : Type 0 where
  entry : EnvLine → Written
  comment : Bytes → Written
  blank : Written

pub record IsPlain (l : EnvLine) : Type 0 where
  pub key_filled : is_empty l.key ≡ false
  pub key_line : Without newline l.key
  pub key_equals : Without equals l.key
  pub key_trimmed : IsTrimmed is_blank l.key
  pub key_comment : first_is (λ c. nat_eq c hash) l.key ≡ false
  pub value_line : Without newline l.value
  pub value_trimmed : IsTrimmed is_blank l.value

abbrev pub Writable : Written → Type 0
Writable (entry l) = IsPlain l
Writable (comment t) = Without newline t
Writable blank = Unit

abbrev pub text_of : Written → Bytes
text_of (entry l) = l.key ++ (equals ∷ l.value)
text_of (comment t) = hash ∷ t
text_of blank = []

-- The file, each line ended by a newline.
unfoldable pub written : List Written → Bytes
written [] = []
written (w ∷ ws) = text_of w ++ (newline ∷ written ws)

unfoldable pub entries : List Written → List EnvLine
entries [] = []
entries (entry l ∷ ws) = l ∷ entries ws
entries (comment t ∷ ws) = entries ws
entries (blank ∷ ws) = entries ws

abbrev pub AllWritable : List Written → Type 0
AllWritable [] = Unit
AllWritable (w ∷ ws) = Writable w × AllWritable ws

-- One line at a time.
lines_from_line :
    (buf line rest : Bytes)
    → Without newline line
    → lines_from buf (line ++ (newline ∷ rest))
      ≡ keep_line (parse_line (buf ++ line)) (lines_from [] rest)
unfolding lines_from
lines_from_line buf [] rest h = rw append-nil
lines_from_line buf (c ∷ cs) rest (h, hs) =
    rw h (lines_from_line (buf ++ c ∷ []) cs rest hs ∙ rw (append_assoc buf (c ∷ []) cs))

last-equals :
    (value : Bytes) → last_is is_blank value ≡ false → last_is is_blank (equals ∷ value) ≡ false
last-equals [] h = refl
last-equals (c ∷ cs) h = h

parse-entry :
    (key value : Bytes)
    → IsPlain (record { key = key; value = value })
    → parse_line (key ++ (equals ∷ value)) ≡ some (record { key = key; value = value })
unfolding parse_line
parse-entry [] value h = cc (h.key_filled)
parse-entry (c ∷ cs) value h =
    rw
      (
        trim_lem is_blank ((c ∷ cs) ++ (equals ∷ value)) (
          h.key_trimmed.0,
          last_is-append is_blank (c ∷ cs) equals value ∙ last-equals value h.value_trimmed.1,
        ),
        h.key_comment,
        cut-append equals (c ∷ cs) value h.key_equals,
        trim_lem is_blank (c ∷ cs) h.key_trimmed,
        trim_lem is_blank value h.value_trimmed,
      )
      refl

parse-comment : (t : Bytes) → parse_line (hash ∷ t) ≡ none
unfolding parse_line trim_left trim_right
parse-comment t = ground arith

parse-text_of :
    (w : Written) (ws : List Written)
    → Writable w
    → keep_line (parse_line (text_of w)) (entries ws) ≡ entries (w ∷ ws)
unfolding entries parse_line trim_left trim_right
parse-text_of (entry l) ws h = ap (λ o. keep_line o (entries ws)) (parse-entry l.key l.value h)
parse-text_of (comment t) ws h = ap (λ o. keep_line o (entries ws)) (parse-comment t)
parse-text_of blank ws h = refl

text_of-line : (w : Written) → Writable w → Without newline (text_of w)
text_of-line (entry l) h =
    Without-append newline l.key (equals ∷ l.value) h.key_line (refl, h.value_line)
text_of-line (comment t) h = (refl, h)
text_of-line blank h = tt

-- A file of entries, comments and blank lines, each on a line of its own: where no key is empty,
-- holds a '=' or starts with '#', and neither keys nor values hold a newline or have a blank at
-- either end, the parser gives exactly the entries, in order.
pub parse_env_lines-written :
    (ws : List Written) → AllWritable ws → parse_env_lines (written ws) ≡ entries ws
unfolding parse_env_lines written entries lines_from parse_line trim_left trim_right
parse_env_lines-written [] h = refl
parse_env_lines-written (w ∷ ws) (h, hs) =
    lines_from_line [] (text_of w) (written ws) (text_of-line w h)
    ∙ ap (keep_line (parse_line (text_of w))) (parse_env_lines-written ws hs)
    ∙ parse-text_of w ws h
