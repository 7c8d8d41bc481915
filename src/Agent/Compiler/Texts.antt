-- ===== src/Agent/Compiler/Texts.antt =====
-- The tests of sky-agent/app/agent/decision_compiler.py on the user's message. Python's text
-- operations are parameters.
use cang_qiong_project.Common.{
  String, Bool, true, false, ◌&&◌, ◌||◌, not, List, [], ◌∷◌, ◌=ₛ◌, if◌then◌else◌, any,
}

-- `casefold`, `" ".join(_.split())`, `re.findall` of the words, and `in` on texts, whose first
-- argument is the text that is looked for.
pub record TextOperations : Type 0 where
  pub casefold : String → String
  pub collapse : String → String
  pub words : String → List String
  pub is_in : String → String → Bool

abbrev ticket_request_markers : List String
ticket_request_markers =
    "ticket" ∷ "support" ∷ "open" ∷ "create" ∷ "record" ∷ "kayıt" ∷ "destek" ∷ "aç" ∷ "oluştur" ∷ []

abbrev pub generic_reason_words : List String
generic_reason_words =
    "a" ∷ "an" ∷ "and" ∷ "arrived" ∷ "because" ∷ "for" ∷ "i" ∷ "item" ∷ "it" ∷ "my" ∷ "need"
    ∷ "number" ∷ "of" ∷ "order" ∷ "please" ∷ "refund" ∷ "request" ∷ "the" ∷ "to" ∷ "want" ∷ "bir"
    ∷ "ben" ∷ "benim" ∷ "geldi" ∷ "geldiği" ∷ "iade" ∷ "iadesi" ∷ "için" ∷ "lütfen" ∷ "numaralı"
    ∷ "para" ∷ "sipariş" ∷ "siparişe" ∷ "siparişi" ∷ "yap" ∷ "yapın" ∷ []

abbrev latest_order_markers : List String
latest_order_markers =
    "latest" ∷ "last order" ∷ "most recent" ∷ "recent order" ∷ "recent orders" ∷ "en son"
    ∷ "son sipariş" ∷ "son siparişler" ∷ "en yeni" ∷ "yakın tarihli" ∷ []

abbrev contradictory_cancel_markers : List String
contradictory_cancel_markers =
    "don't cancel" ∷ "do not cancel" ∷ "no cancel" ∷ "no, cancel" ∷ "never cancel" ∷ "not cancel"
    ∷ "no longer cancel" ∷ "not sure" ∷ "uncertain" ∷ "maybe" ∷ "cancel etmeyin" ∷ "hayır iptal"
    ∷ "hayır, iptal" ∷ "iptal etme" ∷ "iptal etmeyin" ∷ "iptal etmek istemiyorum" ∷ "vazgeç"
    ∷ "emin değilim" ∷ "kararsız" ∷ "keep it active" ∷ "keep it open" ∷ "aktif kalsın"
    ∷ "açık kalsın" ∷ []

abbrev unsupported_reason_instruction_markers : List String
unsupported_reason_instruction_markers =
    "make up a reason" ∷ "invent a reason" ∷ "fabricate a reason" ∷ "bir neden uydur"
    ∷ "neden uydur" ∷ "bir sebep uydur" ∷ "sebep uydur" ∷ []

abbrev pub holds : List String → String → Bool
holds ws w = any (λ v. v =ₛ w) ws

-- The set difference, as a list.
abbrev pub without : List String → List String → List String
without [] generic = []
without (w ∷ ws) generic =
    let rest = without ws generic in if holds generic w then rest else w ∷ rest

abbrev pub all_in : List String → List String → Bool
all_in [] known = true
all_in (w ∷ ws) known = holds known w && all_in ws known

abbrev is_empty : List String → Bool
is_empty [] = true
is_empty (_ ∷ _) = false

module _ (texts : TextOperations) where
  abbrev normalized : String → String
  normalized message = texts.collapse (texts.casefold message)

  -- The words of a text that are no boilerplate.
  abbrev pub meaningful : String → List String
  meaningful t = without (texts.words (texts.casefold t)) generic_reason_words

  unfoldable pub contains_ticket_request : String → Bool
  contains_ticket_request message =
      any (holds ticket_request_markers) (texts.words (texts.casefold message))

  unfoldable pub is_latest_order_request : String → Bool
  is_latest_order_request message =
      any (λ m. texts.is_in m (normalized message)) latest_order_markers

  unfoldable pub is_contradictory_cancel : String → Bool
  is_contradictory_cancel message =
      (texts.is_in "cancel" (normalized message) || texts.is_in "iptal" (normalized message))
      && any (λ m. texts.is_in m (normalized message)) contradictory_cancel_markers

  unfoldable pub reason_is_user_supported : String → String → Bool
  reason_is_user_supported reason message =
      not (any (λ m. texts.is_in m (normalized message)) unsupported_reason_instruction_markers)
      && (not (is_empty (meaningful reason)) && all_in (meaningful reason) (meaningful message))
