-- ===== src/Llm/Reply/Fence.antt =====
-- An answer in a code fence.
use mathlib.Core.List.{append_assoc}
use cali_go_stack.Base.{
  ◌≡◌, refl, sym, ap, ◌∙◌, some, [], ◌∷◌, ◌++◌, false, IsTrimmed, Without, trim_lem, last_is,
  last_is-append, trim_right-append, trim_left, cut-append, Without-append,
}
use cali_go_stack.Llm.Reply.{
  Text, is_space, trim_space, has_prefix, fence, newline, before_last_fence, strip_code_fence,
  open_bracket, first_array, Decoder, cleaned, items_of, parse_string_array,
}

abbrev pub fenced : (lang body : Text) → Text
fenced lang body = (fence ++ lang) ++ (newline ∷ (body ++ (newline ∷ fence)))

before_last_fence-append :
    (body : Text) → before_last_fence (body ++ (newline ∷ fence)) ≡ some (body ++ newline ∷ [])
unfolding before_last_fence has_prefix
before_last_fence-append [] = refl
before_last_fence-append (c ∷ cs) = rw (before_last_fence-append cs) refl

module _ (lang rest : Text) (one_line : Without newline lang)
    (ends : last_is is_space (open_bracket ∷ rest) ≡ false) where
  abbrev body : Text
  body = open_bracket ∷ rest

  body-IsTrimmed : IsTrimmed is_space body
  unfolding is_space
  body-IsTrimmed = (refl, ends)

  fenced-IsTrimmed : IsTrimmed is_space (fenced lang body)
  unfolding is_space
  fenced-IsTrimmed = (
    refl,
    ap (last_is is_space) (sym (append_assoc (fence ++ lang) (newline ∷ body) (newline ∷ fence)))
        ∙ last_is-append is_space ((fence ++ lang) ++ (newline ∷ body)) newline fence,
  )

  trim_space-newline : trim_space (body ++ newline ∷ []) ≡ body
  unfolding trim_left is_space
  trim_space-newline = trim_right-append is_space body newline ends refl

  strip_code_fence-fenced : strip_code_fence (fenced lang body) ≡ body
  unfolding strip_code_fence
  strip_code_fence-fenced =
      rw
        (
          cut-append newline (fence ++ lang) (body ++ (newline ∷ fence))
              (Without-append newline fence lang (refl, (refl, (refl, tt))) one_line),
          before_last_fence-append body,
        )
        trim_space-newline

  cleaned-fenced : cleaned (fenced lang body) ≡ body
  unfolding has_prefix
  cleaned-fenced =
      rw (trim_lem is_space (fenced lang body) fenced-IsTrimmed) strip_code_fence-fenced

  cleaned-plain : cleaned body ≡ body
  unfolding has_prefix
  cleaned-plain = rw (trim_lem is_space body body-IsTrimmed) refl

  -- An array that stands in a code fence, with or without the name of a language behind the opening
  -- fence, is read as the array alone, whatever it holds, fences among it.
  pub parse_string_array-fenced :
      (decode : Decoder)
      → parse_string_array decode (fenced lang body) ≡ parse_string_array decode body
  unfolding parse_string_array
  parse_string_array-fenced decode =
      ap (λ s. items_of decode (first_array s)) (cleaned-fenced ∙ sym cleaned-plain)
