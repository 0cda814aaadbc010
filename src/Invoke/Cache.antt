-- ===== src/Invoke/Cache.antt =====
-- The cache of results of de_databus/de_module.cpp: its bound, and what it keeps.
use droneengage_common.Common.{
  ◌≤◌, ◌≡◌, refl, true, false, ◌||◌, some, String, str_eq, List, [], ◌∷◌, ◌++◌, if◌then◌else◌, ltb,
  length, arith, eq_iff, Bool-cases, inl, inr, length-append,
}
use droneengage_common.Common.Assoc.{
  Assoc, lookup, contains, insert, erase, lookup-insert, lookup-erase,
}
use droneengage_common.Cap.Schema.{elem}
use droneengage_common.Invoke.Handle.{InvokeResult, CModule, trim, cache_invoke_result}

abbrev pub Distinct : List String → Type 0
Distinct [] = Unit {0}
Distinct (k ∷ ks) = (elem k ks ≡ false) × Distinct ks

elem-snoc : (k j : String) (ks : List String) → elem k (ks ++ j ∷ []) ≡ (elem k ks || str_eq k j)
elem-snoc k j [] = ground arith
elem-snoc k j (i ∷ ks) = ground (arith, elem-snoc k j ks)

Distinct-snoc :
    (j : String) (ks : List String) → Distinct ks → elem j ks ≡ false → Distinct (ks ++ j ∷ [])
Distinct-snoc j [] d h = (refl, tt)
Distinct-snoc j (k ∷ ks) d h = (
  ground (arith, elem-snoc k j ks, eq_iff k j, eq_iff j k),
  Distinct-snoc j ks d.1 (ground arith),
)

module _ {F : Type 0} where
  -- The order lists the ids of the results, each once.
  pub record Agrees (results : Assoc (InvokeResult F)) (ks : List String) : Type 0 where
    pub listed : (k : String) → contains k results ≡ elem k ks
    pub distinct : Distinct ks

  pub record IsSound (m : CModule F) : Type 0 where
    pub agrees : Agrees m.invoke_results m.invoke_order
    pub bounded : length m.invoke_order ≤ 64

  drop_first :
      (results : Assoc (InvokeResult F)) (k : String) (ks : List String)
      → Agrees results (k ∷ ks)
      → Agrees (erase k results) ks
  unfolding contains
  drop_first results k ks a = record {
    listed = λ j.
        ground (arith, a.listed j, a.distinct.0, lookup-erase k j results, eq_iff k j, eq_iff j k);
    distinct = a.distinct.1;
  }

  trim-Agrees :
      (results : Assoc (InvokeResult F)) (ks : List String)
      → Agrees results ks
      → Agrees (trim results ks).0 (trim results ks).1
  unfolding trim
  trim-Agrees results [] a = a
  trim-Agrees results (k ∷ ks) a = elim (Bool-cases (ltb 64 (length (k ∷ ks)))) [
    | inl e ↦ rw e (trim-Agrees (erase k results) ks (drop_first results k ks a))
    | inr e ↦ rw e a
  ]

  length-trim :
      (results : Assoc (InvokeResult F)) (ks : List String) → length (trim results ks).1 ≤ 64
  unfolding trim
  length-trim results [] = omega arith
  length-trim results (k ∷ ks) = elim (Bool-cases (ltb 64 (length (k ∷ ks)))) [
    | inl e ↦ rw e (length-trim (erase k results) ks)
    | inr e ↦ rw e (ground arith)
  ]

  insert-Agrees :
      (id : String) (r : InvokeResult F) (results : Assoc (InvokeResult F)) (ks : List String)
      → Agrees results ks
      → Agrees (insert id r results) (if contains id results then ks else ks ++ id ∷ [])
  unfolding contains
  insert-Agrees id r results ks a = elim (Bool-cases (contains id results)) [
    | inl e ↦ rw e (record { listed = λ k. old e k; distinct = a.distinct })
    | inr e ↦
        rw e
          (record { listed = λ k. new e k; distinct = Distinct-snoc id ks a.distinct (sym_of e) })
  ]
    where
      sym_of : contains id results ≡ false → elem id ks ≡ false
      sym_of e = cc (e, a.listed id)

      old : contains id results ≡ true → (k : String) → contains k (insert id r results) ≡ elem k ks
      old e k =
          ground (arith, e, a.listed k, a.listed id, lookup-insert id k r results, eq_iff id k)

      new :
          contains id results ≡ false
          → (k : String) → contains k (insert id r results) ≡ elem k (ks ++ id ∷ [])
      new e k = ground (
        arith,
        e,
        a.listed k,
        lookup-insert id k r results,
        eq_iff id k,
        eq_iff k id,
        elem-snoc k id ks,
      )

  pub cache_invoke_result-IsSound :
      (id : String) (r : InvokeResult F) (m : CModule F)
      → IsSound m
      → IsSound (cache_invoke_result id r m)
  unfolding cache_invoke_result
  cache_invoke_result-IsSound id r m s = record {
    agrees =
        trim-Agrees (insert id r m.invoke_results)
          (if contains id m.invoke_results then m.invoke_order else m.invoke_order ++ id ∷ [])
          (insert-Agrees id r m.invoke_results m.invoke_order s.agrees);
    bounded =
        length-trim (insert id r m.invoke_results)
          (if contains id m.invoke_results then m.invoke_order else m.invoke_order ++ id ∷ []);
  }

  pub trim-eq :
      (results : Assoc (InvokeResult F)) (ks : List String)
      → length ks ≤ 64
      → trim results ks ≡ (results, ks)
  unfolding trim
  trim-eq results [] h = refl
  trim-eq results (k ∷ ks) h = ground arith

  pub trim-over :
      (results : Assoc (InvokeResult F)) (k : String) (ks : List String)
      → ltb 64 (length (k ∷ ks)) ≡ true
      → trim results (k ∷ ks) ≡ trim (erase k results) ks
  unfolding trim
  trim-over results k ks e = rw e refl

  trim-longer :
      (results : Assoc (InvokeResult F)) (ks : List String) (id : String) (r : InvokeResult F)
      → length ks ≤ 64
      → elem id ks ≡ false
      → lookup id (trim (insert id r results) (ks ++ id ∷ [])).0 ≡ some r
  trim-longer results [] id r h new =
      rw (trim-eq (insert id r results) (id ∷ []) (omega arith))
        (ground (arith, lookup-insert id id r results, eq_iff id id))
  trim-longer results (k ∷ ks) id r h new =
      elim (Bool-cases (ltb 64 (length (k ∷ ks ++ id ∷ [])))) [
        | inl e ↦
            rw
              (
                trim-over (insert id r results) k (ks ++ id ∷ []) e,
                trim-eq (erase k (insert id r results)) (ks ++ id ∷ [])
                    (omega (arith, length-append ks (id ∷ []))),
              )
              (ground (
                arith,
                new,
                lookup-erase k id (insert id r results),
                lookup-insert id id r results,
                eq_iff id id,
                eq_iff k id,
              ))
        | inr e ↦
            rw (trim-eq (insert id r results) (k ∷ ks ++ id ∷ []) (ground arith))
              (ground (arith, lookup-insert id id r results, eq_iff id id))
      ]

  -- The result that was just cached is found under its id.
  pub lookup-cache_invoke_result :
      (id : String) (r : InvokeResult F) (m : CModule F)
      → IsSound m
      → lookup id (cache_invoke_result id r m).invoke_results ≡ some r
  unfolding cache_invoke_result
  lookup-cache_invoke_result id r m s = elim (Bool-cases (contains id m.invoke_results)) [
    | inl e ↦
        rw (e, trim-eq (insert id r m.invoke_results) m.invoke_order s.bounded)
          (ground (arith, lookup-insert id id r m.invoke_results, eq_iff id id))
    | inr e ↦
        rw e
          (trim-longer m.invoke_results m.invoke_order id r s.bounded (cc (e, s.agrees.listed id)))
  ]
