-- ===== src/Invoke/Recent.antt =====
-- How long the cache of results of de_databus/de_module.cpp answers an invoke that comes again.
use droneengage_common.Common.{
  subst, ℕ, suc, ◌+◌, ◌≤◌, ◌<◌, ◌≡◌, ◌≢◌, refl, sym, ◌∙◌, false, some, String, str_eq, List, [],
  ◌∷◌, ◌++◌, ltb, length, length-append, append_assoc, arith, eq_iff, Bool-cases, inl, inr, All,
}
use droneengage_common.Common.Assoc.{
  Assoc, lookup, contains, insert, erase, lookup-insert, lookup-erase,
}
use droneengage_common.Common.Float.{FloatOps}
use droneengage_common.Cap.Schema.{elem}
use droneengage_common.Invoke.Handle.{
  InvokeResult, CModule, Command, send_invoke_result, answer, handle_command, cache_invoke_result,
  trim,
}
use droneengage_common.Invoke.Cache.{IsSound, cache_invoke_result-IsSound, trim-eq, trim-over}

module _ {F : Type 0} where
  -- The id stands in the order with `post` behind it, and its result is cached.
  record IsKept (id : String) (r : InvokeResult F) (post : List String)
      (results : Assoc (InvokeResult F)) (order : List String) : Type 0 where
    pre : List String
    unlisted : elem id pre ≡ false
    listed : order ≡ pre ++ id ∷ post
    found : lookup id results ≡ some r

  -- A result with fewer than 64 behind it is not trimmed.
  trim-IsKept :
      (id : String) (r : InvokeResult F) (pre post : List String) (results : Assoc (InvokeResult F))
      → lookup id results ≡ some r
      → elem id pre ≡ false
      → length post < 64
      → IsKept id r post (trim results (pre ++ id ∷ post)).0 (trim results (pre ++ id ∷ post)).1
  trim-IsKept id r [] post results found new few =
      rw (trim-eq results (id ∷ post) (omega (arith, few)))
        (record { pre = []; unlisted = refl; listed = refl; found = found })
  trim-IsKept id r (k ∷ pre) post results found new few =
      elim (Bool-cases (ltb 64 (length (k ∷ pre ++ id ∷ post)))) [
        | inl e ↦ rw (trim-over results k (pre ++ id ∷ post) e) (
            trim-IsKept id r pre post (erase k results)
              (ground (arith, found, new, lookup-erase k id results, eq_iff k id, eq_iff id k))
              (ground (arith, new)) few)
        | inr e ↦
            rw (trim-eq results (k ∷ pre ++ id ∷ post) (ground (arith, e)))
              (record { pre = k ∷ pre; unlisted = new; listed = refl; found = found })
      ]

  -- `m` has the result, with at most `n` newer ones.
  record IsRecent (id : String) (r : InvokeResult F) (n : ℕ) (m : CModule F) : Type 0 where
    sound : IsSound m
    post : List String
    few : length post ≤ n
    kept : IsKept id r post m.invoke_results m.invoke_order

  answer-IsSound : (q : InvokeResult F) (m : CModule F) → IsSound m → IsSound (answer q m)
  unfolding answer send_invoke_result
  answer-IsSound q m s = record {
    agrees = (cache_invoke_result-IsSound q.id q m s).agrees;
    bounded = (cache_invoke_result-IsSound q.id q m s).bounded;
  }

  -- The result that was just cached, if its id is new.
  first-IsRecent :
      (r : InvokeResult F) (m : CModule F)
      → IsSound m
      → contains r.id m.invoke_results ≡ false
      → IsRecent r.id r 0 (answer r m)
  unfolding answer send_invoke_result cache_invoke_result
  first-IsRecent r m s new = record {
    sound = answer-IsSound r m s;
    post = [];
    few = omega arith;
    kept = rw new (
        trim-IsKept r.id r m.invoke_order [] (insert r.id r m.invoke_results)
          (ground (arith, lookup-insert r.id r.id r m.invoke_results, eq_iff r.id r.id))
          (sym (s.agrees.listed r.id) ∙ new) (omega arith));
  }

  -- Another result after it.
  next-IsRecent :
      (id : String) (r q : InvokeResult F) (n : ℕ) (m : CModule F)
      → str_eq q.id id ≡ false
      → n < 63
      → IsRecent id r n m
      → IsRecent id r (suc n) (answer q m)
  unfolding answer send_invoke_result cache_invoke_result
  next-IsRecent id r q n m other room h = elim (Bool-cases (contains q.id m.invoke_results)) [
    | inl e ↦ record {
      sound = answer-IsSound q m h.sound;
      post = h.post;
      few = omega (arith, h.few);
      kept = rw (e, h.kept.listed) (kept h.post (omega (arith, h.few, room)));
    }
    | inr e ↦ record {
      sound = answer-IsSound q m h.sound;
      post = h.post ++ q.id ∷ [];
      few = omega (arith, h.few, longer);
      kept =
          rw (e, h.kept.listed, append_assoc h.kept.pre (id ∷ h.post) (q.id ∷ []))
            (kept (h.post ++ q.id ∷ []) (omega (arith, h.few, longer, room)));
    }
  ]
    where
      longer : length (h.post ++ q.id ∷ []) ≡ suc (length h.post)
      longer = omega (arith, length-append h.post (q.id ∷ []))

      kept :
          (post : List String)
          → length post < 64
          → IsKept id r post
              (trim (insert q.id q m.invoke_results) (h.kept.pre ++ id ∷ post)).0
              (trim (insert q.id q m.invoke_results) (h.kept.pre ++ id ∷ post)).1
      kept post few =
          trim-IsKept id r h.kept.pre post (insert q.id q m.invoke_results)
            (ground (arith, other, h.kept.found, lookup-insert q.id id q m.invoke_results))
            h.kept.unlisted few

  -- Results that are answered one after the other.
  abbrev pub answers : List (InvokeResult F) → CModule F → CModule F
  answers [] m = m
  answers (q ∷ qs) m = answers qs (answer q m)

  answers-IsRecent :
      (id : String) (r : InvokeResult F) (qs : List (InvokeResult F)) (n : ℕ) (m : CModule F)
      → All (λ q. str_eq q.id id ≡ false) qs
      → n + length qs ≤ 63
      → IsRecent id r n m
      → lookup id (answers qs m).invoke_results ≡ some r
  answers-IsRecent id r [] n m others room h = h.kept.found
  answers-IsRecent id r (q ∷ qs) n m (other, others) room h =
      answers-IsRecent id r qs (suc n) (answer q m) others (omega (arith, room))
        (next-IsRecent id r q n m other (omega (arith, room)) h)

module _ {F : Type 0} ⦃o : FloatOps F⦄ where
  -- An invoke whose id was not cached before is answered. As long as at most 63 results of other ids have been answered
  -- since, the invoke that comes again is answered by the cached result, and nothing else changes.
  pub handle_command-answers :
      (c : Command F) (m : CModule F) (r : InvokeResult F) (qs : List (InvokeResult F))
      → IsSound m
      → c.id ≢ ""
      → r.id ≡ c.id
      → contains c.id m.invoke_results ≡ false
      → All (λ q. str_eq q.id c.id ≡ false) qs
      → length qs ≤ 63
      → handle_command c (answers qs (answer r m))
        ≡ (send_invoke_result r (answers qs (answer r m)), false)
  unfolding handle_command
  handle_command-answers c m r qs s named same new others few = rw (named_test, cached) refl
    where
      named_test : str_eq c.id "" ≡ false
      named_test = ground (arith, eq_iff c.id "")

      cached : lookup c.id (answers qs (answer r m)).invoke_results ≡ some r
      cached =
          subst
            (λ id.
              contains id m.invoke_results ≡ false
              → All (λ q. str_eq q.id id ≡ false) qs
              → lookup id (answers qs (answer r m)).invoke_results ≡ some r)
            same
            (λ a b.
              answers-IsRecent r.id r qs 0 (answer r m) b (omega (arith, few))
                (first-IsRecent r m s a))
            new others
