-- ===== src/Obs/Entry.antt =====
-- helpers/obs.hpp: the parser reads back an observation that the builder wrote.
use droneengage_common.Common.{
  ℕ, ◌≡◌, Bool, true, false, not, ◌&&◌, [], String, str_eq, ◌⊎◌, inl, inr, refl, ap, arith,
  Bool-cases, if◌then◌else◌, subst, none, some, on_right, on_right-step, ◌∙◌,
}
use droneengage_common.Common.Assoc.{lookup, insert}
use droneengage_common.Common.Int.{ℤ, negsuc, to_int32}
use droneengage_common.Common.Float.{FloatOps}
use droneengage_common.Json.{
  Json, null, boolean, unsigned, object, string, integer, float, array, nil, cons, at, is_null,
  is_object, of_members, get_double, get_int,
}
use droneengage_common.Obs.{Observation, no_observation, obs_box_valid}
use droneengage_common.Obs.Wire.{
  entry_members, build_entry, parse_entry, parse_cls, parse_conf, parse_box, parse_optional,
  parse_trk, parse_cls_id, parse_attrs, int64_of, in_unit, put_if,
}

if_same : (b : Bool) → (if b then true else false) ≡ b
if_same true = refl
if_same false = refl

module _ {F : Type 0} ⦃o : FloatOps F⦄ where
  -- What is read back of an observation: the optional members that are not written have their defaults.
  pub read_back : Observation F → Observation F
  read_back e = record e {
    trk = if e.has_trk then e.trk else negsuc 0;
    cls_id = if e.has_cls_id then e.cls_id else negsuc 0;
  }

  -- The checks of the builder.
  record IsWritten (e : Observation F) : Type 0 where
    named : str_eq e.cls "" ≡ false
    sure : in_unit e.conf ≡ true
    boxed : obs_box_valid e ≡ true
    described : (not (is_null e.attrs) && not (is_object e.attrs)) ≡ false

  build_entry-inverse :
      (i : ℕ) (e : Observation F) (v : Json F)
      → build_entry i e ≡ inr v
      → IsWritten e × (object (of_members (entry_members e)) ≡ v)
  unfolding build_entry
  build_entry-inverse i e v h = elim (Bool-cases (str_eq e.cls "")) [
    | inl a ↦ absurd (ground (arith, a, h))
    | inr a ↦ elim (Bool-cases (in_unit e.conf)) [
      | inr b ↦ absurd (ground (arith, a, b, h))
      | inl b ↦ elim (Bool-cases (obs_box_valid e)) [
        | inr c ↦ absurd (ground (arith, a, b, c, h))
        | inl c ↦ elim (Bool-cases (not (is_null e.attrs) && not (is_object e.attrs))) [
          | inl d ↦ absurd (ground (arith, a, b, c, d, h))
          | inr d ↦ (
            record { named = a; sure = b; boxed = c; described = d },
            ground (arith, a, b, c, d, h),
          )
        ]
      ]
    ]
  ]

  -- The wire object, by the optional members that it has.
  wire : (t c a : Bool) → Observation F → Json F
  unfolding insert
  wire t c a e = object (
      of_members (
        put_if a "attrs" e.attrs (
          insert "box"
            (array (cons (float e.x) (cons (float e.y) (cons (float e.w) (cons (float e.h) nil)))))
            (insert "conf" (float e.conf) (
              put_if c "cls_id" (integer e.cls_id)
                (insert "cls" (string e.cls) (put_if t "trk" (integer e.trk) [])))))))

  record IsEntry (t c a : Bool) (e : Observation F) (v : Json F) : Type 0 where
    cls : at "cls" v ≡ some (string e.cls)
    conf : at "conf" v ≡ some (float e.conf)
    box :
        at "box" v
        ≡ some
            (array (cons (float e.x) (cons (float e.y) (cons (float e.w) (cons (float e.h) nil)))))
    trk : at "trk" v ≡ (if t then some (integer e.trk) else none)
    cls_id : at "cls_id" v ≡ (if c then some (integer e.cls_id) else none)
    attrs : at "attrs" v ≡ (if a then some e.attrs else none)

  wire-IsEntry : (t c a : Bool) (e : Observation F) → IsEntry t c a e (wire t c a e)
  unfolding wire lookup insert
  wire-IsEntry t c a e = record {
    cls = ground arith;
    conf = ground arith;
    box = ground arith;
    trk = ground arith;
    cls_id = ground arith;
    attrs = ground arith;
  }

  parsed_cls :
      (i : ℕ) (v : Json F) (e : Observation F) (s : String)
      → at "cls" v ≡ some (string s)
      → str_eq s "" ≡ false
      → parse_cls i v e ≡ inr (record e { cls = s })
  unfolding parse_cls
  parsed_cls i v e s h g = rw (h, g, parse_cls) refl

  parsed_conf :
      (i : ℕ) (v : Json F) (e : Observation F) (x : F)
      → at "conf" v ≡ some (float x)
      → in_unit x ≡ true
      → parse_conf i v e ≡ inr (record e { conf = x })
  unfolding parse_conf get_double
  parsed_conf i v e x h g = rw (h, g, parse_conf) refl

  parsed_box :
      (i : ℕ) (v : Json F) (e b : Observation F)
      → at "box" v
        ≡ some
            (array (cons (float b.x) (cons (float b.y) (cons (float b.w) (cons (float b.h) nil)))))
      → obs_box_valid b ≡ true
      → parse_box i v e ≡ inr (record e { x = b.x; y = b.y; w = b.w; h = b.h })
  unfolding parse_box get_double obs_box_valid
  parsed_box i v e b h g = rw (h, parse_box) (rw (boxed g) refl)
    where
      boxed :
          obs_box_valid b ≡ true
          → obs_box_valid (record e { x = b.x; y = b.y; w = b.w; h = b.h }) ≡ true
      boxed k = k

  abbrev with_trk_if : Bool → ℤ → Observation F → Observation F
  with_trk_if t n x = record x {
    has_trk = if t then true else x.has_trk;
    trk = if t then n else x.trk;
  }

  abbrev with_cls_id_if : Bool → ℤ → Observation F → Observation F
  with_cls_id_if c n x = record x {
    has_cls_id = if c then true else x.has_cls_id;
    cls_id = if c then n else x.cls_id;
  }

  abbrev with_attrs_if : Bool → Json F → Observation F → Observation F
  with_attrs_if a v x = record x { attrs = if a then v else x.attrs }

  parsed_trk :
      (i : ℕ) (t : Bool) (n : ℤ) (x : Observation F)
      → parse_trk i (if t then some (integer n) else none) x ≡ inr (with_trk_if t n x)
  unfolding parse_trk int64_of
  parsed_trk i true n x = refl
  parsed_trk i false n x = refl

  parsed_cls_id :
      (i : ℕ) (c : Bool) (n : ℤ) (x : Observation F)
      → (c ≡ true → to_int32 n ≡ n)
      → parse_cls_id i (if c then some (integer n) else none) x ≡ inr (with_cls_id_if c n x)
  unfolding parse_cls_id int64_of get_int
  parsed_cls_id i true n x h = ap (λ k. inr (record x { has_cls_id = true; cls_id = k })) (h refl)
  parsed_cls_id i false n x h = refl

  parsed_attrs :
      (i : ℕ) (a : Bool) (v : Json F) (x : Observation F)
      → (a ≡ true → is_object v ≡ true)
      → parse_attrs i (if a then some v else none) x ≡ inr (with_attrs_if a v x)
  unfolding parse_attrs
  parsed_attrs i true v x h = rw (h refl) refl
  parsed_attrs i false v x h = refl

  -- The optional members of a written observation.
  parsed_optional :
      (i : ℕ) (t c a : Bool) (e x : Observation F) (v : Json F)
      → IsEntry t c a e v
      → (c ≡ true → to_int32 e.cls_id ≡ e.cls_id)
      → (a ≡ true → is_object e.attrs ≡ true)
      → parse_optional i v x
        ≡ inr (with_attrs_if a e.attrs (with_cls_id_if c e.cls_id (with_trk_if t e.trk x)))
  unfolding parse_optional
  parsed_optional i t c a e x v h small described =
      let e1 = with_trk_if t e.trk x in
      let e2 = with_cls_id_if c e.cls_id e1 in
      on_right-step (parse_trk i (at "trk" v) x) e1
        (λ y. on_right (parse_cls_id i (at "cls_id" v) y) (parse_attrs i (at "attrs" v)))
        (ap (λ w. parse_trk i w x) h.trk ∙ parsed_trk i t e.trk x)
      ∙ on_right-step (parse_cls_id i (at "cls_id" v) e1) e2 (parse_attrs i (at "attrs" v))
          (ap (λ w. parse_cls_id i w e1) h.cls_id ∙ parsed_cls_id i c e.cls_id e1 small)
      ∙ ap (λ w. parse_attrs i w e2) h.attrs
      ∙ parsed_attrs i a e.attrs e2 described

  -- What the parser has read after each required member.
  abbrev named_of : Observation F → Observation F
  named_of e = record no_observation { cls = e.cls }

  abbrev sure_of : Observation F → Observation F
  sure_of e = record (named_of e) { conf = e.conf }

  abbrev boxed_of : Observation F → Observation F
  boxed_of e = record (sure_of e) { x = e.x; y = e.y; w = e.w; h = e.h }

  parsed_entry :
      (i : ℕ) (t c a : Bool) (e : Observation F) (v : Json F)
      → IsEntry t c a e v
      → is_object v ≡ true
      → IsWritten e
      → (c ≡ true → to_int32 e.cls_id ≡ e.cls_id)
      → (a ≡ true → is_object e.attrs ≡ true)
      → parse_entry i v
        ≡ inr
            (with_attrs_if a e.attrs (with_cls_id_if c e.cls_id (with_trk_if t e.trk (boxed_of e))))
  unfolding parse_entry
  parsed_entry i t c a e v h obj w small described =
      let k3 : Observation F → String ⊎ Observation F = parse_optional i v in
      let k2 : Observation F → String ⊎ Observation F = λ y. on_right (parse_box i v y) k3 in
      let k1 : Observation F → String ⊎ Observation F = λ y. on_right (parse_conf i v y) k2 in
      rw (obj, parse_entry)
        (on_right-step (parse_cls i v no_observation) (named_of e) k1
            (parsed_cls i v no_observation e.cls h.cls w.named)
          ∙ on_right-step (parse_conf i v (named_of e)) (sure_of e) k2
              (parsed_conf i v (named_of e) e.conf h.conf w.sure)
          ∙ on_right-step (parse_box i v (sure_of e)) (boxed_of e) k3
              (parsed_box i v (sure_of e) e h.box w.boxed)
          ∙ parsed_optional i t c a e (boxed_of e) v h small described)

  -- The members that are not written have their defaults in what is read back.
  described_back :
      (e : Observation F)
      → (not (is_null e.attrs) && not (is_object e.attrs)) ≡ false
      → (if is_object e.attrs then e.attrs else null) ≡ e.attrs
  described_back e h = null_or_object e.attrs h
    where
      null_or_object :
          (v : Json F)
          → (not (is_null v) && not (is_object v)) ≡ false
          → (if is_object v then v else null) ≡ v
      null_or_object null h = refl
      null_or_object (boolean b) h = absurd (ground arith)
      null_or_object (integer n) h = absurd (ground arith)
      null_or_object (unsigned n) h = absurd (ground arith)
      null_or_object (float x) h = absurd (ground arith)
      null_or_object (string s) h = absurd (ground arith)
      null_or_object (array vs) h = absurd (ground arith)
      null_or_object (object ms) h = refl

  -- A class id that is there fits in an `int`.
  abbrev pub IsSmall : Observation F → Type 0
  IsSmall e = e.has_cls_id ≡ true → to_int32 e.cls_id ≡ e.cls_id

  pub parse_entry-build_entry :
      (i j : ℕ) (e : Observation F) (v : Json F)
      → IsSmall e
      → build_entry i e ≡ inr v
      → parse_entry j v ≡ inr (read_back e)
  unfolding read_back entry_members wire
  parse_entry-build_entry i j e v small h =
      let (w, g) = build_entry-inverse i e v h in
      subst (λ x. parse_entry j x ≡ inr (read_back e)) g
        (parsed_entry j e.has_trk e.has_cls_id (is_object e.attrs) e
            (wire e.has_trk e.has_cls_id (is_object e.attrs) e)
            (wire-IsEntry e.has_trk e.has_cls_id (is_object e.attrs) e) refl w small (λ k. k)
          ∙ ap inr
              (rw (if_same e.has_trk, if_same e.has_cls_id, described_back e w.described) refl))
