-- ===== src/LsdToken/Marketing.antt =====
-- The marketing data of the token (contracts/lsd_token/src/contract.rs).
pub mod Apart
use neutron_contracts.Base.{
  Bool, List, Option, Outcome, String, [], eqb, fail_if, false, if◌then◌else◌, length, ltb, nat_eq,
  none, not, ok, ok_or, pair_eq, some, string_eq, true, ℕ, ◌&&◌, ◌*◌, ◌==◌, ◌>>=◌, ◌>>◌, ◌∷◌,
}
use neutron_contracts.Base.Text.Search.{is_blank}
use neutron_contracts.LsdToken.State.{
  ContractError, Cw20, Logo, LogoInfo, MarketingInfo, Token, embedded, invalid_png_header,
  invalid_xml_preamble, logo_too_big, png, svg, unauthorized, url, url_info, validate,
}

abbrev logo_size_cap : ℕ
logo_size_cap = 5 * 1024

-- The bytes `<?xml ` and `?>`
abbrev xml_prefix : List ℕ
xml_prefix = 60 ∷ 63 ∷ 120 ∷ 109 ∷ 108 ∷ 32 ∷ []

abbrev png_header : List ℕ
png_header = 137 ∷ 80 ∷ 78 ∷ 71 ∷ 13 ∷ 10 ∷ 26 ∷ 10 ∷ []

-- `split_inclusive(|c| *c == b'>').next()`: up to the first `>`, none of an empty text.
unfoldable pub preamble : List ℕ → List ℕ
preamble [] = []
preamble (b ∷ bs) = let rest = preamble bs in if eqb b 62 then b ∷ [] else b ∷ rest

abbrev pub starts_with_bytes : List ℕ → List ℕ → Bool
starts_with_bytes [] bs = true
starts_with_bytes (p ∷ ps) [] = false
starts_with_bytes (p ∷ ps) (b ∷ bs) = eqb p b && starts_with_bytes ps bs

-- `ends_with(b"?>")`
abbrev pub ends_with_mark : List ℕ → Bool
ends_with_mark [] = false
ends_with_mark (a ∷ []) = false
ends_with_mark (a ∷ b ∷ []) = eqb a 63 && eqb b 62
ends_with_mark (a ∷ b ∷ c ∷ bs) = ends_with_mark (b ∷ c ∷ bs)

unfoldable pub verify_xml_preamble : List ℕ → Outcome ContractError (Unit {0})
unfolding preamble
verify_xml_preamble logo =
    fail_if (not (starts_with_bytes xml_prefix (preamble logo) && ends_with_mark (preamble logo)))
      invalid_xml_preamble

unfoldable pub verify_xml_logo : List ℕ → Outcome ContractError (Unit {0})
unfolding verify_xml_preamble
verify_xml_logo logo = do
  verify_xml_preamble logo
  fail_if (ltb logo_size_cap (length logo)) logo_too_big

unfoldable pub verify_png_logo : List ℕ → Outcome ContractError (Unit {0})
verify_png_logo logo = do
  fail_if (ltb logo_size_cap (length logo)) logo_too_big
  fail_if (not (starts_with_bytes png_header logo)) invalid_png_header

unfoldable pub verify_logo : Logo → Outcome ContractError (Unit {0})
unfolding verify_xml_logo verify_png_logo
verify_logo (svg logo) = verify_xml_logo logo
verify_logo (png logo) = verify_png_logo logo
verify_logo (url link) = ok tt

abbrev pub logo_info_of : Logo → LogoInfo
logo_info_of (url link) = url_info link
logo_info_of (svg logo) = embedded
logo_info_of (png logo) = embedded

-- A blank text takes the field away, another one sets it.
abbrev pub or_blank : Option String → Option String → Option String
or_blank none old = old
or_blank (some new) old = if is_blank new then none else some new

unfoldable pub set_marketing :
    (cw : Cw20) → Option String → Option String → Outcome ContractError (Option String)
set_marketing cw none old = ok old
set_marketing cw (some new) old =
    if is_blank new then ok none else (do addr ← validate cw new; ok (some addr))

abbrev pub is_none {ℓ} : {A : Type ℓ} → Option A → Bool
is_none none = true
is_none (some a) = false

-- The marketing data, of which the sender must be in charge.
unfoldable pub as_marketing : {cw : Cw20} → String → Token cw → Outcome ContractError MarketingInfo
as_marketing sender t = do
  marketing_info ← ok_or t.marketing_info unauthorized
  marketing ← ok_or marketing_info.marketing unauthorized
  fail_if (not (marketing == sender)) unauthorized
  ok marketing_info

unfoldable pub execute_update_marketing :
    (cw : Cw20)
    → String
    → Option String
    → Option String
    → Option String
    → Token cw
    → Outcome ContractError (Token cw)
unfolding as_marketing set_marketing
execute_update_marketing cw sender project description marketing t = do
  old ← as_marketing sender t
  new ← set_marketing cw marketing old.marketing
  let info = record old {
    project = or_blank project old.project;
    description = or_blank description old.description;
    marketing = new;
  }
  let nothing_left =
      (is_none info.project && is_none info.description)
      && (is_none info.marketing && is_none info.logo)
  ok (record t { marketing_info = if nothing_left then none else some info })

unfoldable pub execute_upload_logo :
    {cw : Cw20} → String → Logo → Token cw → Outcome ContractError (Token cw)
unfolding as_marketing verify_logo
execute_upload_logo sender logo t = do
  _ ← ok_or t.marketing_info unauthorized
  verify_logo logo
  info ← as_marketing sender t
  ok (record t {
    logo = some logo;
    marketing_info = some (record info { logo = some (logo_info_of logo) });
  })
