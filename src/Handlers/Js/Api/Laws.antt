-- ===== src/Handlers/Js/Api/Laws.antt =====
-- What every function of a script keeps.
use mathlib.Core.Path.{subst}
use neon_oss.Base.{
  ap, sym, ◌∙◌, ℕ, ◌≤◌, ◌≡◌, ◌≢◌, refl, arith, Bool, true, false, Bool-cases, inl, inr, String,
  List, [], ◌∷◌, Option, none, some, Result, ok, err, ℤ, pos, negsuc, pos_part,
}
use neon_oss.Handlers.Js.Api.{
  JsValue, text, int32, VmConfig, VmData, new_vm_data, Call, Reply, gives, panics, dispatch,
  code_or, bad_code, api_render, api_redirect, rendered, redirected, api_set_header, api_set_title,
  api_set_meta, api_set_link, api_set_script, handler_state, render, redirect, set_header,
  set_title, set_meta, set_link, set_script, or_panic, api_state,
}

abbrev pub is_some : {A : Type 0} → Option A → Bool
is_some none = false
is_some (some a) = true

-- A status, if there is one, is one of HTTP.
abbrev pub InRange : Option ℕ → Type 0
InRange none = Unit
InRange (some status) = (100 ≤ status) × (status ≤ 599)

-- A page comes with a status, a redirection with its target and its status.
pub record IsSound (d : VmData) : Type 0 where
  pub with_status : is_some d.status ≡ is_some d.render
  pub status_range : InRange d.status
  pub redirect_true : d.redirect ≢ some false
  pub with_url : is_some d.redirect_url ≡ is_some d.redirect
  pub with_redirect_status : is_some d.redirect_status ≡ is_some d.redirect
  pub redirect_range : InRange d.redirect_status

pub new_vm_data-IsSound : IsSound new_vm_data
new_vm_data-IsSound = record {
  with_status = refl;
  status_range = tt;
  redirect_true = λ e. cc e;
  with_url = refl;
  with_redirect_status = refl;
  redirect_range = tt;
}

abbrev OkInRange : Result ℕ → Type 0
OkInRange (err e) = Unit
OkInRange (ok status) = (100 ≤ status) × (status ≤ 599)

good_code : (code : ℤ) → bad_code code ≡ false → (100 ≤ pos_part code) × (pos_part code ≤ 599)
unfolding bad_code
good_code (pos n) h = ground arith
good_code (negsuc n) h = ground arith

code_or_given :
    (invalid : String) (default : ℕ) (code : ℤ) (more : List JsValue)
    → OkInRange (code_or invalid default (int32 code ∷ more))
unfolding code_or
code_or_given invalid default code more = elim (Bool-cases (bad_code code)) [
  | inl bad ↦ rw (bad, code_or) tt
  | inr good ↦ rw (good, code_or) (good_code code good)
]

code_or-InRange :
    (invalid : String) (default : ℕ) (args : List JsValue)
    → 100 ≤ default
    → default ≤ 599
    → OkInRange (code_or invalid default args)
unfolding code_or
code_or-InRange invalid default (int32 code ∷ more) lo hi = code_or_given invalid default code more
code_or-InRange invalid default _ lo hi = (lo, hi)

rendered-IsSound :
    (content : String) (r : Result ℕ) (d : VmData)
    → OkInRange r
    → IsSound d
    → IsSound (rendered content r d).1
unfolding rendered
rendered-IsSound content (err e) d h s = s
rendered-IsSound content (ok status) d h s = record {
  with_status = refl;
  status_range = h;
  redirect_true = s.redirect_true;
  with_url = s.with_url;
  with_redirect_status = s.with_redirect_status;
  redirect_range = s.redirect_range;
}

redirected-IsSound :
    (url : String) (r : Result ℕ) (d : VmData)
    → OkInRange r
    → IsSound d
    → IsSound (redirected url r d).1
unfolding redirected
redirected-IsSound url (err e) d h s = s
redirected-IsSound url (ok status) d h s = record {
  with_status = s.with_status;
  status_range = s.status_range;
  redirect_true = λ e. cc e;
  with_url = refl;
  with_redirect_status = refl;
  redirect_range = h;
}

api_render-IsSound : (args : List JsValue) (d : VmData) → IsSound d → IsSound (api_render args d).1
unfolding api_render
api_render-IsSound [] d s = s
api_render-IsSound (text content ∷ more) d s =
    rendered-IsSound content (code_or "invalid code" 200 more) d
      (code_or-InRange "invalid code" 200 more (omega arith) (omega arith)) s
api_render-IsSound (_ ∷ more) d s = s

api_redirect-IsSound :
    (args : List JsValue) (d : VmData) → IsSound d → IsSound (api_redirect args d).1
unfolding api_redirect
api_redirect-IsSound [] d s = s
api_redirect-IsSound (text url ∷ more) d s =
    redirected-IsSound url (code_or "invalid status" 302 more) d
      (code_or-InRange "invalid status" 302 more (omega arith) (omega arith)) s
api_redirect-IsSound (_ ∷ more) d s = s

-- The fields that the page's status and the redirection are read from.
record SameAnswer (d d' : VmData) : Type 0 where
  same_render : d'.render ≡ d.render
  same_status : d'.status ≡ d.status
  same_redirect : d'.redirect ≡ d.redirect
  same_url : d'.redirect_url ≡ d.redirect_url
  same_redirect_status : d'.redirect_status ≡ d.redirect_status

same_answer : (d : VmData) → SameAnswer d d
same_answer d = record {
  same_render = refl;
  same_status = refl;
  same_redirect = refl;
  same_url = refl;
  same_redirect_status = refl;
}

SameAnswer-IsSound : (d d' : VmData) → SameAnswer d d' → IsSound d → IsSound d'
SameAnswer-IsSound d d' e s = record {
  with_status = ap is_some e.same_status ∙ s.with_status ∙ sym (ap is_some e.same_render);
  status_range = subst InRange (sym e.same_status) s.status_range;
  redirect_true = λ x. s.redirect_true (sym e.same_redirect ∙ x);
  with_url = ap is_some e.same_url ∙ s.with_url ∙ sym (ap is_some e.same_redirect);
  with_redirect_status =
      ap is_some e.same_redirect_status ∙ s.with_redirect_status ∙ sym (ap is_some e.same_redirect);
  redirect_range = subst InRange (sym e.same_redirect_status) s.redirect_range;
}

api_set_header-SameAnswer :
    (args : List JsValue) (d : VmData) → SameAnswer d (api_set_header args d).1
unfolding api_set_header
api_set_header-SameAnswer [] d = same_answer d
api_set_header-SameAnswer (key ∷ []) d = same_answer d
api_set_header-SameAnswer (text key ∷ text value ∷ more) d = record {
  same_render = refl;
  same_status = refl;
  same_redirect = refl;
  same_url = refl;
  same_redirect_status = refl;
}
api_set_header-SameAnswer (text key ∷ _ ∷ more) d = same_answer d
api_set_header-SameAnswer (_ ∷ value ∷ more) d = same_answer d

api_set_title-SameAnswer :
    (args : List JsValue) (d : VmData) → SameAnswer d (api_set_title args d).1
unfolding api_set_title
api_set_title-SameAnswer [] d = same_answer d
api_set_title-SameAnswer (text title ∷ more) d = record {
  same_render = refl;
  same_status = refl;
  same_redirect = refl;
  same_url = refl;
  same_redirect_status = refl;
}
api_set_title-SameAnswer (_ ∷ more) d = same_answer d

api_set_meta-SameAnswer : (args : List JsValue) (d : VmData) → SameAnswer d (api_set_meta args d).1
unfolding api_set_meta
api_set_meta-SameAnswer args d = record {
  same_render = refl;
  same_status = refl;
  same_redirect = refl;
  same_url = refl;
  same_redirect_status = refl;
}

api_set_link-SameAnswer : (args : List JsValue) (d : VmData) → SameAnswer d (api_set_link args d).1
unfolding api_set_link
api_set_link-SameAnswer args d = record {
  same_render = refl;
  same_status = refl;
  same_redirect = refl;
  same_url = refl;
  same_redirect_status = refl;
}

api_set_script-SameAnswer :
    (args : List JsValue) (d : VmData) → SameAnswer d (api_set_script args d).1
unfolding api_set_script
api_set_script-SameAnswer args d = record {
  same_render = refl;
  same_status = refl;
  same_redirect = refl;
  same_url = refl;
  same_redirect_status = refl;
}

-- A call that does not panic leaves data that satisfy the predicate.
abbrev pub Leaves : (VmData → Type 0) → Reply VmData → Type 0
Leaves P (gives r d) = P d
Leaves P panics = Unit

or_panic-IsSound :
    (d : VmData) (o : Option (Result JsValue)) → IsSound d → Leaves IsSound (or_panic d o)
or_panic-IsSound d none s = tt
or_panic-IsSound d (some r) s = s

-- Every function of a script keeps the data sound.
pub dispatch-IsSound :
    (json_parse : String → Result JsValue) (c : VmConfig) (call : Call) (d : VmData)
    → IsSound d
    → Leaves IsSound (dispatch json_parse c call d)
unfolding dispatch
dispatch-IsSound json_parse c (render args) d s = api_render-IsSound args d s
dispatch-IsSound json_parse c (redirect args) d s = api_redirect-IsSound args d s
dispatch-IsSound json_parse c (set_header args) d s =
    SameAnswer-IsSound d (api_set_header args d).1 (api_set_header-SameAnswer args d) s
dispatch-IsSound json_parse c (set_title args) d s =
    SameAnswer-IsSound d (api_set_title args d).1 (api_set_title-SameAnswer args d) s
dispatch-IsSound json_parse c (set_meta args) d s =
    SameAnswer-IsSound d (api_set_meta args d).1 (api_set_meta-SameAnswer args d) s
dispatch-IsSound json_parse c (set_link args) d s =
    SameAnswer-IsSound d (api_set_link args d).1 (api_set_link-SameAnswer args d) s
dispatch-IsSound json_parse c (set_script args) d s =
    SameAnswer-IsSound d (api_set_script args d).1 (api_set_script-SameAnswer args d) s
dispatch-IsSound json_parse c handler_state d s =
    or_panic-IsSound d (api_state json_parse c.state) s
dispatch-IsSound json_parse c _ d s = s
