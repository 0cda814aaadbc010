-- ===== src/Health/Window.antt =====
-- The rolling window of de_databus/de_module_health.cpp, and what is told of it.
use droneengage_common.Common.{
  ℕ, zero, suc, ◌-◌, ◌≤◌, ◌<◌, ◌≡◌, refl, sym, ap, subst, ◌∙◌, true, false, Option, none, some,
  List, [], ◌∷◌, ◌++◌, ◌==◌, ltb, if_rule, length, drop, arith, length-append, length-drop,
  append_assoc, append-nil, Bool-cases, inl, inr, All, ◌⊎◌,
}
use droneengage_common.Common.Float.{FloatOps}
use droneengage_common.Health.Monitor.{
  HealthMonitor, HealthSample, RawSample, ProcStatus, keep_last, sample, remember, measure,
  megabytes, with_start, peak_of, whole, status_of, warning,
}

drop-nil {ℓ} : {A : Type ℓ} (n : ℕ) → ◌≡◌ {A = List A} [] (drop n [])
drop-nil zero = refl
drop-nil (suc n) = refl

module _ {ℓ} {A : Type ℓ} where
  keep_last_more :
      (n : ℕ) (x : A) (xs : List A) → n < length (x ∷ xs) → keep_last n (x ∷ xs) ≡ keep_last n xs
  unfolding keep_last
  keep_last_more n x xs h = ground arith

  keep_last_done : (n : ℕ) (xs : List A) → length xs ≤ n → keep_last n xs ≡ xs
  unfolding keep_last
  keep_last_done n [] h = refl
  keep_last_done n (x ∷ xs) h = ground arith

  -- The loop drops what is too many at the front.
  keep_last-drop : (n : ℕ) (xs : List A) → keep_last n xs ≡ drop (length xs - n) xs
  keep_last-drop n [] = unfold keep_last in drop-nil (0 - n)
  keep_last-drop n (x ∷ xs) = elim (Bool-cases (ltb n (length (x ∷ xs)))) [
    | inl e ↦
        keep_last_more n x xs (ground (arith, e))
        ∙ keep_last-drop n xs
        ∙ ap (λ k. drop k (x ∷ xs)) {x = suc (length xs - n)} {y = length (x ∷ xs) - n}
            (ground (arith, e))
    | inr e ↦
        keep_last_done n (x ∷ xs) (ground (arith, e))
        ∙ ap (λ k. drop k (x ∷ xs)) {x = 0} {y = length (x ∷ xs) - n} (ground (arith, e))
  ]

  -- What was dropped before makes no difference.
  keep_last-append :
      (n : ℕ) (xs : List A) (y : A)
      → keep_last n (keep_last n xs ++ y ∷ []) ≡ keep_last n (xs ++ y ∷ [])
  keep_last-append n [] y = unfold keep_last in refl
  keep_last-append n (x ∷ xs) y = elim (Bool-cases (ltb n (length (x ∷ xs)))) [
    | inl e ↦
        ap (λ t. keep_last n (t ++ y ∷ [])) (keep_last_more n x xs (ground (arith, e)))
        ∙ keep_last-append n xs y
        ∙ sym (keep_last_more n x (xs ++ y ∷ []) (ground (arith, e, length-append xs (y ∷ []))))
    | inr e ↦ ap (λ t. keep_last n (t ++ y ∷ [])) (keep_last_done n (x ∷ xs) (ground (arith, e)))
  ]

-- The laws of the comparison of numbers that the code relies on.
pub record IsOrder {F : Type 0} (o : FloatOps F) : Type 0 where
  pub weaken : (a b : F) → o.lt a b ≡ true → o.le a b ≡ true
  pub linear : (a b : F) → o.lt a b ≡ false → o.le b a ≡ true
  pub transitive : (a b c : F) → o.le a b ≡ true → o.le b c ≡ true → o.le a c ≡ true

module _ {F : Type 0} ⦃o : FloatOps F⦄ where
  -- The readings of a run of samples: those for which the file could be read.
  abbrev pub readings : List (ℕ × Option ProcStatus) → List (RawSample F)
  readings [] = []
  readings ((now, none) ∷ rest) = readings rest
  readings ((now, some p) ∷ rest) =
      record { timestamp_usec = now; rss_mb = megabytes p.rss_kb } ∷ readings rest

  -- The last `n` readings.
  abbrev pub last_readings : ℕ → List (RawSample F) → List (RawSample F)
  last_readings n read = drop (length read - n) read

  unfoldable pub run : List (ℕ × Option ProcStatus) → HealthMonitor F → HealthMonitor F
  unfolding sample
  run [] m = m
  run ((now, p) ∷ rest) m = run rest (sample now p m).1

  with_start-same :
      (now : ℕ) (m : HealthMonitor F)
      → ((with_start now m).history ≡ m.history)
        × ((with_start now m).history_samples ≡ m.history_samples)
  with_start-same now m =
      if_rule (λ t. (t.history ≡ m.history) × (t.history_samples ≡ m.history_samples))
        (m.start_time_usec == 0) _ m (λ e. (refl, refl)) (λ e. (refl, refl))

  -- The history is what is left of the readings so far.
  record IsWindow (n : ℕ) (read : List (RawSample F)) (m : HealthMonitor F) : Type 0 where
    size : m.history_samples ≡ n
    window : m.history ≡ keep_last n read

  sample-IsWindow :
      (n : ℕ) (read : List (RawSample F)) (now : ℕ) (p : Option ProcStatus) (m : HealthMonitor F)
      → IsWindow n read m
      → IsWindow n (read ++ readings ((now, p) ∷ [])) (sample now p m).1
  unfolding sample remember
  sample-IsWindow n read now none m h =
      let (history, size) = with_start-same now m in
      record {
        size = size ∙ h.size;
        window = history ∙ h.window ∙ ap (keep_last n) (sym (append-nil read));
      }
  sample-IsWindow n read now (some p) m h =
      let (history, size) = with_start-same now m in
      let last : RawSample F = record { timestamp_usec = now; rss_mb = megabytes p.rss_kb } in
      record {
        size = size ∙ h.size;
        window =
            ap (λ k. keep_last k ((with_start now m).history ++ last ∷ [])) (size ∙ h.size)
            ∙ ap (λ t. keep_last n (t ++ last ∷ [])) (history ∙ h.window)
            ∙ keep_last-append n read last;
      }

  readings-cons :
      (now : ℕ) (p : Option ProcStatus) (rest : List (ℕ × Option ProcStatus))
      → readings ((now, p) ∷ rest) ≡ readings ((now, p) ∷ []) ++ readings rest
  readings-cons now none rest = refl
  readings-cons now (some p) rest = refl

  run-IsWindow :
      (n : ℕ) (read : List (RawSample F)) (samples : List (ℕ × Option ProcStatus))
      (m : HealthMonitor F)
      → IsWindow n read m
      → IsWindow n (read ++ readings samples) (run samples m)
  unfolding run
  run-IsWindow n read [] m h = subst (λ t. IsWindow n t m) (sym (append-nil read)) h
  run-IsWindow n read ((now, p) ∷ samples) m h =
      subst (λ t. IsWindow n t (run samples (sample now p m).1))
        (append_assoc read (readings ((now, p) ∷ [])) (readings samples)
          ∙ ap (λ t. read ++ t) (sym (readings-cons now p samples)))
        (run-IsWindow n (read ++ readings ((now, p) ∷ [])) samples (sample now p m).1
          (sample-IsWindow n read now p m h))

  abbrev pub IsBelow : F → RawSample F → Type 0
  IsBelow peak p = o.le p.rss_mb peak ≡ true

  -- The peak is one of the readings.
  abbrev pub IsReached : F → List (RawSample F) → Type 0
  IsReached peak [] = ⊥
  IsReached peak (p ∷ ps) = (p.rss_mb ≡ peak) ⊎ IsReached peak ps

  module _ (order : IsOrder o) where
    le_refl : (a : F) → o.le a a ≡ true
    le_refl a = elim (Bool-cases (o.lt a a)) [
      | inl e ↦ order.weaken a a e
      | inr e ↦ order.linear a a e
    ]

    -- The peak grows only, and is above each reading.
    peak_of-IsBelow :
        (peak : F) (ps : List (RawSample F))
        → ((b : F) → o.le b peak ≡ true → o.le b (peak_of peak ps) ≡ true)
          × All (IsBelow (peak_of peak ps)) ps
    unfolding peak_of
    peak_of-IsBelow peak [] = (λ b e. e, tt)
    peak_of-IsBelow peak (p ∷ ps) =
        if_rule
          (λ q.
            ((b : F) → o.le b peak ≡ true → o.le b (peak_of q ps) ≡ true)
            × All (IsBelow (peak_of q ps)) (p ∷ ps))
          (o.lt peak p.rss_mb) p.rss_mb peak
          (λ e.
            let ih = peak_of-IsBelow p.rss_mb ps in
            (
              λ b f. ih.0 b (order.transitive b peak p.rss_mb f (order.weaken peak p.rss_mb e)),
              (ih.0 p.rss_mb (le_refl p.rss_mb), ih.1),
            ))
          (λ e.
            let ih = peak_of-IsBelow peak ps in
            (ih.0, (ih.0 p.rss_mb (order.linear peak p.rss_mb e), ih.1)))

    -- The peak is the one that it started from, or a reading.
    peak_of-IsReached :
        (peak : F) (ps : List (RawSample F))
        → (peak_of peak ps ≡ peak) ⊎ IsReached (peak_of peak ps) ps
    unfolding peak_of
    peak_of-IsReached peak [] = inl refl
    peak_of-IsReached peak (p ∷ ps) =
        if_rule (λ q. (peak_of q ps ≡ peak) ⊎ IsReached (peak_of q ps) (p ∷ ps))
          (o.lt peak p.rss_mb) p.rss_mb peak
          (λ e. inr (elim (peak_of-IsReached p.rss_mb ps) [ inl x ↦ inl (sym x) | inr x ↦ inr x ]))
          (λ e. elim (peak_of-IsReached peak ps) [ inl x ↦ inl x | inr x ↦ inr (inr x) ])

    status-full :
        (rss slope : F) (m : HealthMonitor F)
        → status_of rss slope m ≡ warning
        → m.history_samples ≤ length m.history
    unfolding status_of
    status-full rss slope m e = ground (arith, e)

    length-keep_last :
        {A : Type 0} (n : ℕ) (xs : List A) → n ≤ length (keep_last n xs) → n ≤ length xs
    length-keep_last n xs h =
        omega (arith, h, ap length (keep_last-drop n xs), length-drop (length xs - n) xs)

    -- After any run of samples of a monitor without readings, a sample that can be read tells the largest of the last
    -- `history_samples` readings, that sample's counted: none of them is above the peak, and the peak is one of them, or
    -- zero, so that older readings have no part in it. It warns of growth only when there have been so many readings.
    -- The comparison of numbers is taken to be an order.
    pub sample-run :
        (samples : List (ℕ × Option ProcStatus)) (now : ℕ) (p : ProcStatus) (m : HealthMonitor F)
        → m.history ≡ []
        → (h : HealthSample F) × ((sample now (some p) (run samples m)).0 ≡ some h)
          × All
              (IsBelow h.peak_rss_mb)
              (last_readings m.history_samples (readings samples ++ readings ((now, some p) ∷ [])))
          × ((h.peak_rss_mb ≡ whole 0)
              ⊎ IsReached h.peak_rss_mb (
                  last_readings m.history_samples
                    (readings samples ++ readings ((now, some p) ∷ []))))
          × (h.status ≡ warning
              → m.history_samples ≤ length (readings samples ++ readings ((now, some p) ∷ [])))
    unfolding sample remember measure
    sample-run samples now p m fresh =
        let n = m.history_samples in
        let all = readings samples ++ readings ((now, some p) ∷ []) in
        let t = (sample now (some p) (run samples m)).1 in
        let w = sample-IsWindow n (readings samples) now (some p) (run samples m) (
          run-IsWindow n [] samples m
            (record { size = refl; window = unfold keep_last in fresh })) in
        (
          measure now p t,
          refl,
          subst (All (IsBelow (peak_of (whole 0) t.history))) (w.window ∙ keep_last-drop n all)
              (peak_of-IsBelow (whole 0) t.history).1,
          subst
              (λ ps.
                (peak_of (whole 0) t.history ≡ whole 0)
                ⊎ IsReached (peak_of (whole 0) t.history) ps)
              (w.window ∙ keep_last-drop n all) (peak_of-IsReached (whole 0) t.history),
          λ e.
              length-keep_last n all
                (omega (arith, w.size, ap length w.window, status-full _ _ t e)),
        )
