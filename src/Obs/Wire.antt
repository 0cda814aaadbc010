-- ===== src/Obs/Wire.antt =====
-- The builder and the strict parser of helpers/obs.hpp. `inl` is the text of `err`.
use droneengage_common.Common.{
  ℕ, suc, Bool, true, not, ◌&&◌, Option, none, some, String, str_eq, List, [], ◌∷◌, ◌⊎◌, inl, inr,
  if◌then◌else◌, ltb, ◌%◌, ◌^◌, ◌-◌,
}
use Prim.Native.String.{◌++◌ as str_append}
use droneengage_common.Common.Text.{to_string}
use droneengage_common.Common.Assoc.{Assoc, insert, lookup}
use droneengage_common.Common.Int.{ℤ, pos, negsuc, ltb_ℤ}
use droneengage_common.Common.Float.{FloatOps}
use droneengage_common.Json.{
  Json, integer, unsigned, float, string, array, object, nil, cons, items, of_items, of_members, at,
  is_null, is_number, is_object, get_int, get_double,
}
use droneengage_common.Obs.{
  Observation, ObservationFrame, float_zero, float_one, no_observation, obs_box_valid,
}

-- "obs[" + std::to_string (i) + "] " + what
unfoldable pub entry_error : ℕ → String → String
unfolding to_string
entry_error i what = str_append (str_append (str_append "obs[" (to_string i)) "] ") what

-- A value of 64 bits as `int64_t`.
abbrev of_bits64 : ℕ → ℤ
of_bits64 n = if ltb n (2 ^ 63) then pos n else negsuc (2 ^ 64 - n - 1)

module _ {F : Type 0} where
  -- What `is_number_integer ()` and `get<int64_t> ()` make of a value.
  unfoldable pub int64_of : Json F → Option ℤ
  int64_of (integer n) = some n
  int64_of (unsigned n) = some (of_bits64 (n % 2 ^ 64))
  int64_of _ = none

  -- What `contains (key)` and `is_string ()` make of a member.
  abbrev text_of : Option (Json F) → Option String
  text_of (some (string s)) = some s
  text_of _ = none

  abbrev int64_member : Option (Json F) → Option ℤ
  int64_member none = none
  int64_member (some v) = int64_of v

  abbrev array_of : Option (Json F) → Option (List (Json F))
  array_of (some (array vs)) = some (items vs)
  array_of _ = none

  -- The four values of a box.
  abbrev box_of : Option (Json F) → Option (Json F × Json F × Json F × Json F)
  box_of (some (array (cons a (cons b (cons c (cons d nil)))))) = some (a, b, c, d)
  box_of _ = none

  -- `e[key] = v` where the condition holds.
  abbrev pub put_if : Bool → String → Json F → Assoc (Json F) → Assoc (Json F)
  put_if b k v m = if b then insert k v m else m

module _ {F : Type 0} ⦃o : FloatOps F⦄ where
  abbrev number_of : Option (Json F) → Option F
  number_of none = none
  number_of (some v) = if is_number v then some (get_double v) else none

  abbrev pub in_unit : F → Bool
  in_unit x = o.le float_zero x && o.le x float_one

  -- The members of the wire object of an observation.
  unfoldable pub entry_members : Observation F → Assoc (Json F)
  unfolding insert
  entry_members e = put_if (is_object e.attrs) "attrs" e.attrs (
      insert "box"
        (array (cons (float e.x) (cons (float e.y) (cons (float e.w) (cons (float e.h) nil)))))
        (insert "conf" (float e.conf) (
          put_if e.has_cls_id "cls_id" (integer e.cls_id)
            (insert "cls" (string e.cls) (put_if e.has_trk "trk" (integer e.trk) [])))))

  unfoldable pub build_entry : ℕ → Observation F → String ⊎ Json F
  unfolding entry_members entry_error obs_box_valid
  build_entry i e =
      if str_eq e.cls ""
      then inl (entry_error i "cls empty")
      else if not (in_unit e.conf)
      then inl (entry_error i "conf out of [0..1]")
      else if not (obs_box_valid e)
      then inl (entry_error i "box outside [0..1]")
      else if not (is_null e.attrs) && not (is_object e.attrs)
      then inl (entry_error i "attrs not an object")
      else inr (object (of_members (entry_members e)))

  -- The loop over the observations, from the index `i`.
  unfoldable pub build_entries : ℕ → List (Observation F) → String ⊎ List (Json F)
  unfolding build_entry
  build_entries i [] = inr []
  build_entries i (e ∷ es) = elim (build_entry i e) [
    | inl err ↦ inl err
    | inr v ↦ elim (build_entries (suc i) es) [ inl err ↦ inl err | inr vs ↦ inr (v ∷ vs) ]
  ]

  unfoldable pub frame_members : ObservationFrame F → List (Json F) → Assoc (Json F)
  unfolding insert
  frame_members f arr =
      insert "obs" (array (of_items arr))
        (insert "tm_capture" (integer f.tm_capture) (insert "cam_id" (string f.cam_id) []))

  unfoldable pub obs_build : ObservationFrame F → String ⊎ Json F
  unfolding build_entries frame_members
  obs_build f =
      if str_eq f.cam_id ""
      then inl "cam_id empty"
      else if ltb_ℤ f.tm_capture (pos 0)
      then inl "tm_capture negative"
      else elim (build_entries 0 f.obs) [
        | inl err ↦ inl err
        | inr arr ↦ inr (object (of_members (frame_members f arr)))
      ]

  -- "trk", where it is there.
  unfoldable pub parse_trk : ℕ → Option (Json F) → Observation F → String ⊎ Observation F
  unfolding entry_error int64_of
  parse_trk i none e = inr e
  parse_trk i (some v) e = elim (int64_of v) [
    | none ↦ inl (entry_error i "trk not an integer")
    | some n ↦ inr (record e { has_trk = true; trk = n })
  ]

  unfoldable pub parse_cls_id : ℕ → Option (Json F) → Observation F → String ⊎ Observation F
  unfolding entry_error int64_of get_int
  parse_cls_id i none e = inr e
  parse_cls_id i (some v) e = elim (int64_of v) [
    | none ↦ inl (entry_error i "cls_id not an integer")
    | some n ↦ inr (record e { has_cls_id = true; cls_id = get_int v })
  ]

  unfoldable pub parse_attrs : ℕ → Option (Json F) → Observation F → String ⊎ Observation F
  unfolding entry_error
  parse_attrs i none e = inr e
  parse_attrs i (some v) e =
      if is_object v
      then inr (record e { attrs = v })
      else inl (entry_error i "attrs not an object")

  -- The optional members, one after the other.
  unfoldable pub parse_optional : ℕ → Json F → Observation F → String ⊎ Observation F
  unfolding lookup parse_trk parse_cls_id parse_attrs
  parse_optional i v e = elim (parse_trk i (at "trk" v) e) [
    | inl err ↦ inl err
    | inr e1 ↦ elim (parse_cls_id i (at "cls_id" v) e1) [
      | inl err ↦ inl err
      | inr e2 ↦ parse_attrs i (at "attrs" v) e2
    ]
  ]

  unfoldable pub parse_box : ℕ → Json F → Observation F → String ⊎ Observation F
  unfolding lookup entry_error get_double obs_box_valid
  parse_box i v e = elim (box_of (at "box" v)) [
    | none ↦ inl (entry_error i "box missing")
    | some q ↦
        if is_number q.0 && is_number q.1 && is_number q.2 && is_number q.3
        then (let b = record e {
          x = get_double q.0;
          y = get_double q.1;
          w = get_double q.2;
          h = get_double q.3;
        } in
            if obs_box_valid b then inr b else inl (entry_error i "box outside [0..1]"))
        else inl (entry_error i "box not numeric")
  ]

  unfoldable pub parse_conf : ℕ → Json F → Observation F → String ⊎ Observation F
  unfolding lookup entry_error get_double
  parse_conf i v e = elim (number_of (at "conf" v)) [
    | none ↦ inl (entry_error i "conf missing")
    | some x ↦
        if in_unit x then inr (record e { conf = x }) else inl (entry_error i "conf out of [0..1]")
  ]

  unfoldable pub parse_cls : ℕ → Json F → Observation F → String ⊎ Observation F
  unfolding lookup entry_error
  parse_cls i v e = elim (text_of (at "cls" v)) [
    | none ↦ inl (entry_error i "cls missing")
    | some s ↦ if str_eq s "" then inl (entry_error i "cls empty") else inr (record e { cls = s })
  ]

  unfoldable pub parse_entry : ℕ → Json F → String ⊎ Observation F
  unfolding parse_cls parse_conf parse_box parse_optional entry_error
  parse_entry i v =
      if not (is_object v)
      then inl (entry_error i "not an object")
      else elim (parse_cls i v no_observation) [
        | inl err ↦ inl err
        | inr e1 ↦ elim (parse_conf i v e1) [
          | inl err ↦ inl err
          | inr e2 ↦ elim (parse_box i v e2) [ inl err ↦ inl err | inr e3 ↦ parse_optional i v e3 ]
        ]
      ]

  unfoldable pub parse_entries : ℕ → List (Json F) → String ⊎ List (Observation F)
  unfolding parse_entry
  parse_entries i [] = inr []
  parse_entries i (v ∷ vs) = elim (parse_entry i v) [
    | inl err ↦ inl err
    | inr e ↦ elim (parse_entries (suc i) vs) [ inl err ↦ inl err | inr es ↦ inr (e ∷ es) ]
  ]

  unfoldable pub obs_parse : Json F → String ⊎ ObservationFrame F
  unfolding lookup int64_of parse_entries
  obs_parse ms =
      if not (is_object ms) then inl "not an object" else elim (text_of (at "cam_id" ms)) [
        | none ↦ inl "cam_id missing"
        | some cam_id ↦
            if str_eq cam_id ""
            then inl "cam_id empty"
            else elim (int64_member (at "tm_capture" ms)) [
              | none ↦ inl "tm_capture missing"
              | some tm ↦
                  if ltb_ℤ tm (pos 0)
                  then inl "tm_capture negative"
                  else elim (array_of (at "obs" ms)) [
                    | none ↦ inl "obs missing"
                    | some arr ↦ elim (parse_entries 0 arr) [
                      | inl err ↦ inl err
                      | inr es ↦ inr (record { cam_id = cam_id; tm_capture = tm; obs = es })
                    ]
                  ]
            ]
      ]
