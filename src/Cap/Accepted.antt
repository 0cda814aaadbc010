-- ===== src/Cap/Accepted.antt =====
-- What a call of `capCheckParams` without errors has established: de_databus/cap_schema.cpp.
use droneengage_common.Common.{
  ◌≡◌, ◌⊎◌, refl, subst, true, false, ◌||◌, Option, none, some, String, str_eq, [], ◌∷◌, ◌++◌,
  if◌then◌else◌, arith, eq_iff, Bool-cases, Option-cases, inl, inr,
}
use droneengage_common.Common.Assoc.{Assoc, lookup, contains, insert, lookup-insert}
use droneengage_common.Common.Float.{FloatOps}
use droneengage_common.Json.{Json, object, at, fields, members, Members, is_null, is_object}
use droneengage_common.Cap.Outcome.{missing_required, expected}
use droneengage_common.Cap.Check.{
  Errors, error_at, is_optional, Checked, before, check_absent, check_value, unknown_keys,
  check_each, check_params,
}

module _ {F : Type 0} ⦃o : FloatOps F⦄ where
  -- The first entry of every key is its only one.
  abbrev pub IsDistinct : Assoc (Json F) → Type 0
  IsDistinct [] = Unit {0}
  IsDistinct ((k, v) ∷ ms) = (contains k ms ≡ false) × IsDistinct ms

  -- What `filled` holds under a key: the value given, or else the default.
  abbrev pub given_or_default : Option (Json F) → Option (Json F) → Option (Json F)
  given_or_default (some v) param = some v
  given_or_default none none = none
  given_or_default none (some param) = at "default" param

  -- A parameter's value was checked, or it was not given and need not be.
  abbrev pub IsSettled : String → Json F → Option (Json F) → Type 0
  IsSettled name param (some v) = check_value 4 param v name ≡ some []
  IsSettled name param none =
      ((d : Json F) × (at "default" param ≡ some d)) ⊎ (is_optional param ≡ some true)

  -- So for a key, whether it is declared or not.
  abbrev pub IsSettledAt : String → Option (Json F) → Option (Json F) → Type 0
  IsSettledAt k none v = v ≡ none
  IsSettledAt k (some param) v = IsSettled k param v

  pub record IsAccepted (schema : Assoc (Json F)) (with : Json F) (filled : Assoc (Json F))
      : Type 0 where
    pub shape : (is_null with || is_object with) ≡ true
    pub settled : (k : String) → IsSettledAt k (lookup k schema) (at k with)
    pub complete : (k : String) → lookup k filled ≡ given_or_default (at k with) (lookup k schema)

  no_unknown :
      (schema with : Assoc (Json F)) (k : String) (v : Json F)
      → unknown_keys schema with ≡ []
      → lookup k with ≡ some v
      → contains k schema ≡ true
  unfolding unknown_keys lookup
  no_unknown schema [] k v e h = ground arith
  no_unknown schema ((j, w) ∷ ms) k v e h = ground (arith, eq_iff j k, no_unknown schema ms k v)

  before-inv :
      (es : Option (Errors F)) (rest : Checked F) (out : Assoc (Json F))
      → before es rest ≡ some ([], out)
      → (es ≡ some []) × (rest ≡ some ([], out))
  before-inv none rest out h = absurd (cc h)
  before-inv (some es) none out h = absurd (cc h)
  before-inv (some []) (some (fs, filled)) out h = (refl, h)
  before-inv (some (e ∷ es)) (some (fs, filled)) out h = absurd (cc h)

  check_absent-inv :
      (param : Json F) (name : String)
      → at "default" param ≡ none
      → check_absent param name missing_required ≡ some []
      → is_optional param ≡ some true
  unfolding check_absent
  check_absent-inv param name e h = ground (arith, e, h)

  -- What `filled` holds under a key after the loop, from what it held before.
  abbrev after_loop : Option (Json F) → Option (Json F) → Option (Json F) → Option (Json F)
  after_loop (some v) param held = held
  after_loop none none held = held
  after_loop none (some param) held = elim (at "default" param) [ none ↦ held | some d ↦ some d ]

  record IsChecked (with : Json F) (filled ps out : Assoc (Json F)) : Type 0 where
    settled :
        (k : String) (param : Json F) → lookup k ps ≡ some param → IsSettled k param (at k with)
    held : (k : String) → lookup k out ≡ after_loop (at k with) (lookup k ps) (lookup k filled)

  -- The head of the schema is settled and leaves `kept`, from which the loop goes on.
  extend :
      (with : Json F) (filled kept ps out : Assoc (Json F)) (name : String) (param : Json F)
      → contains name ps ≡ false
      → IsSettled name param (at name with)
      → ((k : String)
          → lookup k kept ≡ (
              if str_eq name k
              then after_loop (at k with) (some param) (lookup k filled)
              else lookup k filled))
      → IsChecked with kept ps out
      → IsChecked with filled ((name, param) ∷ ps) out
  unfolding lookup contains
  extend with filled kept ps out name param new s keeps c = record {
    settled = λ k p h. settle k p h (Bool-cases (str_eq name k));
    held = λ k. hold k (Bool-cases (str_eq name k));
  }
    where
      settle :
          (k : String) (p : Json F)
          → lookup k ((name, param) ∷ ps) ≡ some p
          → (str_eq name k ≡ true) ⊎ (str_eq name k ≡ false)
          → IsSettled k p (at k with)
      settle k p h (inl e) =
          subst (λ q. IsSettled k q (at k with)) (same k p e h)
            (subst (λ j. IsSettled j param (at j with)) (name_of k e) s)
        where
          name_of : (k : String) → str_eq name k ≡ true → name ≡ k
          name_of k e = ground (arith, eq_iff name k)

          same :
              (k : String) (p : Json F)
              → str_eq name k ≡ true
              → lookup k ((name, param) ∷ ps) ≡ some p
              → param ≡ p
          same k p e h = ground arith
      settle k p h (inr e) = c.settled k p (ground arith)

      hold :
          (k : String)
          → (str_eq name k ≡ true) ⊎ (str_eq name k ≡ false)
          → lookup k out ≡ after_loop (at k with) (lookup k ((name, param) ∷ ps)) (lookup k filled)
      hold k (inl e) = ground (arith, absent k, c.held k, keeps k)
        where
          absent : (k : String) → str_eq name k ≡ true → lookup k ps ≡ none
          absent k e = ground (arith, new, eq_iff name k)
      hold k (inr e) = ground (arith, c.held k, keeps k)

  check_each-given :
      (with : Json F) (filled ps : Assoc (Json F)) (name : String) (param v : Json F)
      → at name with ≡ some v
      → check_each with filled ((name, param) ∷ ps)
        ≡ before (check_value 4 param v name) (check_each with filled ps)
  unfolding check_each
  check_each-given with filled ps name param v e = rw (e, check_each) refl

  check_each-default :
      (with : Json F) (filled ps : Assoc (Json F)) (name : String) (param d : Json F)
      → at name with ≡ none
      → at "default" param ≡ some d
      → check_each with filled ((name, param) ∷ ps) ≡ check_each with (insert name d filled) ps
  unfolding check_each
  check_each-default with filled ps name param d e h = rw (e, check_each, h) refl

  check_each-absent :
      (with : Json F) (filled ps : Assoc (Json F)) (name : String) (param : Json F)
      → at name with ≡ none
      → at "default" param ≡ none
      → check_each with filled ((name, param) ∷ ps)
        ≡ before (check_absent param name missing_required) (check_each with filled ps)
  unfolding check_each
  check_each-absent with filled ps name param e h = rw (e, check_each, h) refl

  done_IsChecked :
      (with : Json F) (filled out : Assoc (Json F))
      → check_each with filled [] ≡ some ([], out)
      → IsChecked with filled [] out
  unfolding check_each lookup
  done_IsChecked with filled out h = record {
    settled = λ k p q. absurd (cc q);
    held = λ k. elim (at k with) [ none ↦ ground arith | some v ↦ ground arith ];
  }

  check_each-IsChecked :
      (with : Json F) (filled ps out : Assoc (Json F))
      → IsDistinct ps
      → check_each with filled ps ≡ some ([], out)
      → IsChecked with filled ps out
  check_each-IsChecked with filled [] out d h = done_IsChecked with filled out h
  check_each-IsChecked with filled ((name, param) ∷ ps) out d h =
      elim (Option-cases (at name with)) [
        | inr (v, e) ↦
            let both =
              before-inv (check_value 4 param v name) (check_each with filled ps) out
                (rw⁻¹ (check_each-given with filled ps name param v e) h) in
            extend with filled filled ps out name param d.0 (rw e both.0)
              (λ k. ground (arith, e, eq_iff name k))
              (check_each-IsChecked with filled ps out d.1 both.1)
        | inl e ↦ elim (Option-cases (at "default" param)) [
          | inr (v, g) ↦
              extend with filled (insert name v filled) ps out name param d.0 (rw e (inl (v, g)))
                (λ k. ground (arith, e, g, eq_iff name k, lookup-insert name k v filled))
                (check_each-IsChecked with (insert name v filled) ps out d.1
                  (rw⁻¹ (check_each-default with filled ps name param v e g) h))
          | inl g ↦
              let both =
                before-inv (check_absent param name missing_required) (check_each with filled ps)
                  out (rw⁻¹ (check_each-absent with filled ps name param e g) h) in
              extend with filled filled ps out name param d.0
                (rw e (inr (check_absent-inv param name g both.0)))
                (λ k. ground (arith, e, g, eq_iff name k))
                (check_each-IsChecked with filled ps out d.1 both.1)
        ]
      ]

  append-inv :
      (es fs : Errors F) (rest : Checked F) (out : Assoc (Json F))
      → before (some (es ++ fs)) rest ≡ some ([], out)
      → (es ≡ []) × ((fs ≡ []) × (rest ≡ some ([], out)))
  append-inv [] fs rest out h =
      let both = before-inv (some fs) rest out h in (refl, (some_inv fs both.0, both.1))
    where
      some_inv : (fs : Errors F) → ◌≡◌ {A = Option (Errors F)} (some fs) (some []) → fs ≡ []
      some_inv fs h = cc h
  append-inv (e ∷ es) fs rest out h = absurd (cc (before-inv (some (e ∷ es ++ fs)) rest out h).0)

  -- The schema of the parameters is an object. A call without errors was given an object, or nothing. Every parameter given is declared. Every
  -- declared parameter was given a value that passes its check, or has a default, or is optional.
  -- And `filled` holds the values given, the defaults of the others, and nothing else. The names in
  -- the schema are distinct.
  pub check_params-IsAccepted :
      (ps : Members F) (with : Json F) (filled : Assoc (Json F))
      → IsDistinct (members ps)
      → check_params (object ps) with ≡ some ([], filled)
      → IsAccepted (members ps) with filled
  unfolding check_params contains
  check_params-IsAccepted ps with filled d h =
      let parts =
        append-inv
          (if is_null with || is_object with
            then []
            else error_at "with" (expected ("object" ∷ [])) ∷ [])
          (unknown_keys (members ps) (fields with)) (check_each with (fields with) (members ps))
          filled h in
      let loop = check_each-IsChecked with (fields with) (members ps) filled d parts.1.1 in
      record {
        shape = ground (arith, parts.0);
        settled =
            λ k. settle k (lookup k (members ps)) (at k with) loop.settled parts.1.0 refl refl;
        complete = λ k. complete k (at k with) (lookup k (members ps)) refl (loop.held k);
      }
    where
      settle :
          (k : String) (p v : Option (Json F))
          → ((k : String) (param : Json F)
              → lookup k (members ps) ≡ some param
              → IsSettled k param (at k with))
          → unknown_keys (members ps) (fields with) ≡ []
          → lookup k (members ps) ≡ p
          → at k with ≡ v
          → IsSettledAt k p v
      settle k none none checks none_unknown a b = refl
      settle k none (some v) checks none_unknown a b =
          absurd (cc (no_unknown (members ps) (fields with) k v none_unknown b, undeclared k a))
        where
          undeclared : (k : String) → lookup k (members ps) ≡ none → contains k (members ps) ≡ false
          undeclared k a = rw a
      settle k (some param) v checks none_unknown a b =
          subst (IsSettled k param) b (checks k param a)

      complete :
          (k : String) (v p : Option (Json F))
          → at k with ≡ v
          → lookup k filled ≡ after_loop v p (lookup k (fields with))
          → lookup k filled ≡ given_or_default v p
      complete k (some v) p e h = ground (arith, e)
      complete k none none e h = ground (arith, e)
      complete k none (some p) e h = elim (Option-cases (at "default" p)) [
        | inl g ↦ ground (arith, e)
        | inr (v, g) ↦ ground (arith, e)
      ]
