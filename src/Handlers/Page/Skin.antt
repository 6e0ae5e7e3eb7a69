-- ===== src/Handlers/Page/Skin.antt =====
-- The skin of the page and the skin of the fragments that take its place.
use cali_go_stack.Base.{◌≡◌, refl, inl, inr, Bool-cases, String, ◌==◌, if◌then◌else◌}
use cali_go_stack.Handlers.Page.{
  PageConfig, PageSignals, Page, morpheus_page, basecoat_page, layout_page, page_of, resolve_skin,
  skin_asked,
}

-- The template of a skin that a fragment has.
abbrev pub template : (fragment_skin : String) → PageSignals → (email told : String) → Page
template skin s email told =
    if skin == "morpheus"
    then morpheus_page s email
    else if skin == "basecoat"
    then basecoat_page s email
    else layout_page s email told

-- Whatever skin is asked for or configured, the page is rendered by the template of the same skin as
-- the fragments that later take the place of its list.
pub page_skin_resolved :
    (cfg : PageConfig) (asked : String) (s : PageSignals) (email : String)
    → page_of (skin_asked cfg asked) s email
      ≡ template (resolve_skin cfg asked) s email (skin_asked cfg asked)
unfolding page_of resolve_skin
page_skin_resolved cfg asked s email =
    let name = skin_asked cfg asked in
    elim (Bool-cases (name == "morpheus")) [
      | inl first ↦ rw (first, first) refl
      | inr other ↦ elim (Bool-cases (name == "basecoat")) [
        | inl second ↦ rw (other, second, other, second) refl
        | inr neither ↦ rw (other, neither) refl
      ]
    ]
