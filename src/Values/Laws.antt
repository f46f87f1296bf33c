-- ===== src/Values/Laws.antt =====
-- What the replacement of parameters leaves as it is.
use text.Mathlib.TextLemmas.{cons-append, nil-append}
use neon_oss.Base.{eq_iff, refl, ◌∙◌, arith, ap, ◌≢◌, ◌≡◌, sym, Dict, [], ◌∷◌, String}
use neon_oss.Strings.{◌+++◌}
use neon_oss.Strings.Laws.{Lacks, replace_all-Lacks}
use neon_oss.Values.{
  Value, null, bool, int, float, str, arr, maps, obj, Maps, no_map, map_of, Fields, end, field,
  parameter_text, replace_parameters, put_field, replace_value, replace_maps, replace_in_map,
}

dollar : (k : String) → ("$" +++ k) ≡ String.◌∷◌ "$" k
dollar k = cons-append "$" "" k ∙ ap (String.◌∷◌ "$") (nil-append k)

-- A text with no dollar sign keeps its value under any parameters.
pub replace_parameters-Lacks :
    (s : String) (params : Dict Value) → Lacks b'$' s → replace_parameters s params ≡ s
unfolding replace_parameters
replace_parameters-Lacks s [] h = refl
replace_parameters-Lacks s ((k, v) ∷ more) h =
    rw (dollar k, replace_all-Lacks "$" k (parameter_text v) s h)
      (replace_parameters-Lacks s more h)

abbrev pub Absent : String → Fields → Type 0
Absent k end = Unit
Absent k (field j v fs) = (j ≢ k) × Absent k fs

unfoldable mutual
  -- No text and no key holds a dollar sign, and no key of a map is repeated.
  pub PlainValue : Value → Type 0
  PlainValue null = Unit
  PlainValue (bool b) = Unit
  PlainValue (int n) = Unit
  PlainValue (float t) = Unit
  PlainValue (arr xs) = Unit
  PlainValue (str s) = Lacks b'$' s
  PlainValue (maps ms) = PlainMaps ms
  PlainValue (obj fs) = PlainFields fs

  pub PlainMaps : Maps → Type 0
  PlainMaps no_map = Unit
  PlainMaps (map_of fs ms) = PlainFields fs × PlainMaps ms

  pub PlainFields : Fields → Type 0
  PlainFields end = Unit
  PlainFields (field k v fs) = Lacks b'$' k × PlainValue v × Absent k fs × PlainFields fs

abbrev join : Fields → Fields → Fields
join end fs = fs
join (field k v t) fs = field k v (join t fs)

-- No key of the first map is in the second.
abbrev Apart : Fields → Fields → Type 0
Apart end t = Unit
Apart (field k v fs) t = Absent k t × Apart fs t

join-end : (t : Fields) → join t end ≡ t
join-end end = refl
join-end (field k v t) = ap (field k v) (join-end t)

put_field-Absent :
    (k : String) (v : Value) (t : Fields) → Absent k t → put_field k v t ≡ join t (field k v end)
unfolding put_field
put_field-Absent k v end h = refl
put_field-Absent k v (field j w t) h = ground (arith, eq_iff j k, put_field-Absent k v t)

join_assoc :
    (t : Fields) (k : String) (v : Value) (fs : Fields)
    → join (join t (field k v end)) fs ≡ join t (field k v fs)
join_assoc end k v fs = refl
join_assoc (field j w t) k v fs = ap (field j w) (join_assoc t k v fs)

Absent-join :
    (j k : String) (v : Value) (t : Fields) → Absent j t → k ≢ j → Absent j (join t (field k v end))
Absent-join j k v end h ne = (ne, tt)
Absent-join j k v (field i w t) h ne = (h.0, Absent-join j k v t h.1 ne)

Apart-join :
    (fs : Fields) (k : String) (v : Value) (t : Fields)
    → Apart fs t
    → Absent k fs
    → Apart fs (join t (field k v end))
Apart-join end k v t h a = tt
Apart-join (field j w fs) k v t h a =
    (Absent-join j k v t h.0 (λ e. a.0 (sym e)), Apart-join fs k v t h.1 a.1)

Apart-end : (fs : Fields) → Apart fs end
Apart-end end = tt
Apart-end (field k v fs) = (tt, Apart-end fs)

mutual
  unfolding PlainValue PlainMaps PlainFields replace_value replace_maps replace_in_map

  replace_value-plain :
      (params : Dict Value) (v : Value) → PlainValue v → replace_value params v ≡ v
  replace_value-plain params null h = refl
  replace_value-plain params (bool b) h = refl
  replace_value-plain params (int n) h = refl
  replace_value-plain params (float t) h = refl
  replace_value-plain params (arr xs) h = refl
  replace_value-plain params (str s) h = ap str (replace_parameters-Lacks s params h)
  replace_value-plain params (maps ms) h = ap maps (replace_maps-plain params ms h)
  replace_value-plain params (obj fs) h =
      ap obj (replace_in_map-plain params fs end h (Apart-end fs))

  replace_maps-plain :
      (params : Dict Value) (ms : Maps) → PlainMaps ms → replace_maps params ms ≡ ms
  replace_maps-plain params no_map h = refl
  replace_maps-plain params (map_of fs ms) h =
      cc (replace_in_map-plain params fs end h.0 (Apart-end fs), replace_maps-plain params ms h.1)

  replace_in_map-plain :
      (params : Dict Value) (fs t : Fields)
      → PlainFields fs
      → Apart fs t
      → replace_in_map params fs t ≡ join t fs
  replace_in_map-plain params end t h a = sym (join-end t)
  replace_in_map-plain params (field k v fs) t h a =
      rw
        (
          replace_parameters-Lacks k params h.0,
          replace_value-plain params v h.1,
          put_field-Absent k v t a.0,
        )
        (replace_in_map-plain params fs (join t (field k v end)) h.3 (Apart-join fs k v t a.1 h.2)
          ∙ join_assoc t k v fs)

-- A configuration in which no key and no text, at any depth, holds a dollar sign is left as it is,
-- whatever the parameters are.
pub replace_in_map_unchanged :
    (params : Dict Value) (fs : Fields) → PlainFields fs → replace_in_map params fs end ≡ fs
replace_in_map_unchanged params fs h = replace_in_map-plain params fs end h (Apart-end fs)
