-- ===== src/Config/Hiding.antt =====
-- What the configuration page tells of a secret.
use cali_go_stack.Base.{
  String, ℕ, zero, suc, ◌-◌, ◌≤◌, ◌<◌, ◌≡◌, refl, sym, ap, ◌∙◌, [], ◌∷◌, ◌++◌, arith, length, take,
  drop, length-append, length-drop, latest,
}
use cali_go_stack.Queue.Chan.{Bytes}
use cali_go_stack.Config.Mask.{TextLib, masked, masked_url, is_set, stars, ellipsis, mid_max}
use cali_go_stack.Config.Page.{Secrets, Settings, row_secret, row_url, build_page_data}

length-take : (n : ℕ) (xs : Bytes) → length (take n xs) ≤ n
length-take zero xs = omega arith
length-take (suc n) [] = omega arith
length-take (suc n) (x ∷ xs) = omega (arith, length-take n xs)

module _ (lib : TextLib) where
  -- A masked value that is not empty shows: it has at least three bytes.
  masked_shows : (v : Bytes) → is_set (masked lib v) ≡ is_set v
  unfolding masked
  masked_shows v = ground (
    arith,
    length-append (take 2 v) (stars ++ drop (length v - 2) v),
    length-append stars (drop (length v - 2) v),
    length-append (take 4 v) (ellipsis ++ drop (length v - 2) v),
    length-append ellipsis (drop (length v - 2) v),
  )

  -- However long a value is, its mask has at most nine bytes; and of a value of more than
  -- sixteen bytes the mask depends on no more than its first four, its last two, and whether it
  -- is valid UTF-8.
  pub masked_bounded :
      (v w : Bytes)
      → (length (masked lib v) ≤ 9)
        × (lib.valid_utf8 v ≡ lib.valid_utf8 w
            → mid_max < length v
            → mid_max < length w
            → take 4 v ≡ take 4 w
            → latest 2 v ≡ latest 2 w
            → masked lib v ≡ masked lib w)
  unfolding masked
  masked_bounded v w = (
    ground (
      arith,
      length-take 2 v,
      length-take 4 v,
      length-drop (length v - 2) v,
      length-append (take 2 v) (stars ++ drop (length v - 2) v),
      length-append stars (drop (length v - 2) v),
      length-append (take 4 v) (ellipsis ++ drop (length v - 2) v),
      length-append ellipsis (drop (length v - 2) v),
    ),
    λ valid long_v long_w first last. ground (arith, valid, first, last),
  )

  -- Two values are shown alike as secrets if their masks are the same.
  row_secret_alike :
      (group key : String) (v w : Bytes)
      → masked lib v ≡ masked lib w
      → row_secret lib group key v ≡ row_secret lib group key w
  unfolding row_secret
  row_secret_alike group key v w same =
      let set : is_set v ≡ is_set w = sym (masked_shows v) ∙ ap is_set same ∙ masked_shows w in
      rw (set, same) refl

  row_url_alike :
      (group key : String) (v w : Bytes)
      → is_set v ≡ is_set w
      → masked_url lib v ≡ masked_url lib w
      → row_url lib group key v ≡ row_url lib group key w
  unfolding row_url
  row_url_alike group key v w set same = rw (set, same) refl

  -- The page tells nothing of the secrets but their masks: with the same settings, two sets of secrets
  -- whose three masked keys have equal masks, whose leaf node URLs are redacted to the same text and
  -- are both set or both not, and of which the age key is set in both or in neither, give one page.
  pub page_hides :
      (c : Settings) (s s' : Secrets)
      → masked lib s.encryption_key ≡ masked lib s'.encryption_key
      → masked lib s.admin_token ≡ masked lib s'.admin_token
      → masked lib s.api_key ≡ masked lib s'.api_key
      → is_set s.leaf_node_url ≡ is_set s'.leaf_node_url
      → masked_url lib s.leaf_node_url ≡ masked_url lib s'.leaf_node_url
      → is_set s.age_secret_key ≡ is_set s'.age_secret_key
      → build_page_data lib c s ≡ build_page_data lib c s'
  unfolding build_page_data
  page_hides c s s' encryption admin api url_set url age =
      rw
        (
          row_secret_alike "storage" "EncryptionKey" s.encryption_key s'.encryption_key encryption,
          row_secret_alike "admin" "AdminToken" s.admin_token s'.admin_token admin,
          row_secret_alike "ai" "APIKey" s.api_key s'.api_key api,
          row_url_alike "nats" "LeafNodeURL" s.leaf_node_url s'.leaf_node_url url_set url,
          age,
        )
        refl
