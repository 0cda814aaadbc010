-- ===== src/Config/Layers.antt =====
-- `CConfigFile` of de_databus/configFile.cpp: local overrides do not get into the published file.
use droneengage_common.Common.{
  ℕ, ◌≡◌, refl, ap, ◌∙◌, sym, on_some, on_some-inverse, Bool, true, false, Option, none, some,
  String, List, [], ◌∷◌, inl, inr, if◌then◌else◌, Bool-cases, ◌||◌,
}
use droneengage_common.Json.{Json, is_null}
use droneengage_common.Config.File.{
  ConfigFile, remove_comments, apply_entries, entries_of, apply_local_overrides, is_empty,
  reload_file, save_config_file, update_json, stamp, reload_with, update_json_with,
}

-- What the module does with its configuration.
pub data ConfigCall (F : Type 0) : Type 0 where
  reload_call : (text : String) (time : Option ℕ) → ConfigCall F
  override_call : Json F → ConfigCall F
  update_call : (text : String) (can_write : Bool) (time : Option ℕ) → ConfigCall F

module _ {F : Type 0} where
  base-stamp : (time : Option ℕ) (s : ConfigFile F) → (stamp time s).base ≡ s.base
  base-stamp none s = refl
  base-stamp (some w) s = refl

  -- Overrides do not touch the base.
  base-apply_local_overrides :
      (o : Json F) (s : ConfigFile F) → (apply_local_overrides o s).base ≡ s.base
  unfolding apply_local_overrides
  base-apply_local_overrides o s = elim (Bool-cases (is_null o || is_empty o)) [
    | inl e ↦ rw (e, apply_local_overrides) refl
    | inr e ↦ rw (e, apply_local_overrides) refl
  ]

  -- The base of what a reload leaves, before the time is taken.
  base-reread :
      (b : Bool) (o : Json F) (s : ConfigFile F)
      → (if b then s else apply_local_overrides o s).base ≡ s.base
  base-reread true o s = refl
  base-reread false o s = base-apply_local_overrides o s

  -- A reload and an update on the published document alone, after the parser.
  unfoldable pub published_reload : Option (Json F) → Option (Json F × Option (Json F))
  published_reload none = none
  published_reload (some j) = some (j, none)

  unfoldable pub published_update :
      Option (Json F) → (can_write : Bool) → Json F → Json F × Option (Json F)
  unfolding apply_entries entries_of
  published_update none can_write j = (j, none)
  published_update (some u) can_write j =
      let b = apply_entries (entries_of u) j in
      if b.1 then (b.0, none) else (b.0, if can_write then some b.0 else none)

  -- The update does not end in an exception on the running configuration.
  unfoldable pub IsAcceptedUpdate : Option (Json F) → Json F → Type 0
  IsAcceptedUpdate none config = Unit
  IsAcceptedUpdate (some u) config = (apply_entries (entries_of u) config).1 ≡ false

  abbrev published : Option (ConfigFile F × Option (Json F)) → Option (Json F × Option (Json F))
  published none = none
  published (some (t, saved)) = some (t.base, saved)

  abbrev published_end :
      Option (ConfigFile F × List (Option (Json F))) → Option (Json F × List (Option (Json F)))
  published_end none = none
  published_end (some (t, saved)) = some (t.base, saved)

  published-reload_with :
      (w : Option (Json F)) (time : Option ℕ) (s : ConfigFile F)
      → published (elim (reload_with w time s) [ none ↦ none | some t ↦ some (t, none) ])
        ≡ published_reload w
  unfolding reload_with published_reload
  published-reload_with none time s = refl
  published-reload_with (some j) time s =
      let read = record s { update_pending = false; config = j; base = j } in
      ap (λ b. some (b, none))
        (base-stamp time (
            if is_null s.local_overrides
            then read
            else apply_local_overrides s.local_overrides read)
          ∙ base-reread (is_null s.local_overrides) s.local_overrides read)

  published-save :
      (can_write : Bool) (time : Option ℕ) (s : ConfigFile F)
      → published (some (save_config_file can_write time s))
        ≡ some (s.base, if can_write then some s.base else none)
  unfolding save_config_file
  published-save true time s = ap (λ b. some (b, some s.base)) (base-stamp time s)
  published-save false time s = refl

  published-update_json_with :
      (w : Option (Json F)) (can_write : Bool) (time : Option ℕ) (s : ConfigFile F)
      → IsAcceptedUpdate w s.config
      → published (some (update_json_with w can_write time s))
        ≡ some (published_update w can_write s.base)
  unfolding update_json_with published_update IsAcceptedUpdate
  published-update_json_with none can_write time s h = refl
  published-update_json_with (some u) can_write time s h =
      let c = apply_entries (entries_of u) s.config in
      let b = apply_entries (entries_of u) s.base in
      elim (Bool-cases b.1) [
        | inl g ↦ rw (h, g, update_json_with, published_update) refl
        | inr g ↦
            rw (h, g, update_json_with, published_update)
              (published-save can_write time
                (record s { update_pending = true; config = c.0; base = b.0 }))
      ]

module _ {F : Type 0} (parse : String → Option (Json F)) where
  -- A call: the object after it, and the document that it saves.
  unfoldable pub config_step : ConfigCall F → ConfigFile F → Option (ConfigFile F × Option (Json F))
  unfolding reload_file apply_local_overrides update_json
  config_step (reload_call text time) s = elim (reload_file parse text time s) [
    | none ↦ none
    | some t ↦ some (t, none)
  ]
  config_step (override_call o) s = some (apply_local_overrides o s, none)
  config_step (update_call text can_write time) s = some (update_json parse text can_write time s)

  -- The same call on the published document alone, as if there were no overrides.
  unfoldable pub published_step : ConfigCall F → Json F → Option (Json F × Option (Json F))
  unfolding remove_comments published_reload published_update
  published_step (reload_call text time) j = published_reload (parse (remove_comments text))
  published_step (override_call o) j = some (j, none)
  published_step (update_call text can_write time) j =
      some (published_update (parse (remove_comments text)) can_write j)

  unfoldable pub IsAccepted : ConfigCall F → ConfigFile F → Type 0
  unfolding remove_comments IsAcceptedUpdate
  IsAccepted (update_call text can_write time) s =
      IsAcceptedUpdate (parse (remove_comments text)) s.config
  IsAccepted _ s = Unit

  published-config_step :
      (x : ConfigCall F) (s : ConfigFile F)
      → IsAccepted x s
      → published (config_step x s) ≡ published_step x s.base
  unfolding config_step published_step IsAccepted reload_file update_json
  published-config_step (reload_call text time) s h =
      published-reload_with (parse (remove_comments text)) time s
  published-config_step (override_call o) s h =
      ap (λ b. some (b, none)) (base-apply_local_overrides o s)
  published-config_step (update_call text can_write time) s h =
      published-update_json_with (parse (remove_comments text)) can_write time s h

  -- A run: the object after it, and what it saves, call by call.
  unfoldable pub config_run :
      List (ConfigCall F) → ConfigFile F → Option (ConfigFile F × List (Option (Json F)))
  unfolding config_step
  config_run [] s = some (s, [])
  config_run (x ∷ xs) s = elim (config_step x s) [
    | none ↦ none
    | some r ↦ elim (config_run xs r.0) [ none ↦ none | some q ↦ some (q.0, r.1 ∷ q.1) ]
  ]

  unfoldable pub published_run :
      List (ConfigCall F) → Json F → Option (Json F × List (Option (Json F)))
  unfolding published_step
  published_run [] j = some (j, [])
  published_run (x ∷ xs) j = elim (published_step x j) [
    | none ↦ none
    | some r ↦ elim (published_run xs r.0) [ none ↦ none | some q ↦ some (q.0, r.1 ∷ q.1) ]
  ]

  -- No update of the run ends in an exception on the running configuration.
  unfoldable pub IsAcceptedRun : List (ConfigCall F) → ConfigFile F → Type 0
  unfolding IsAccepted
  IsAcceptedRun [] s = Unit
  IsAcceptedRun (x ∷ xs) s =
      IsAccepted x s
      × ((r : ConfigFile F × Option (Json F)) → config_step x s ≡ some r → IsAcceptedRun xs r.0)

  -- If no update ends in an exception on the running configuration, a run of reloads, updates and local
  -- overrides leaves the base, and saves the documents, that the same run does without any overrides.
  pub config_run-published_run :
      (calls : List (ConfigCall F)) (s t : ConfigFile F) (saved : List (Option (Json F)))
      → IsAcceptedRun calls s
      → config_run calls s ≡ some (t, saved)
      → published_run calls s.base ≡ some (t.base, saved)
  unfolding config_run published_run IsAcceptedRun
  config_run-published_run [] s t saved h e = ap published_end e
  config_run-published_run (x ∷ xs) s t saved (h, hs) e =
      let more : ConfigFile F × Option (Json F) → Option (ConfigFile F × List (Option (Json F))) =
        λ r. on_some (config_run xs r.0) (λ q. some (q.0, r.1 ∷ q.1)) in
      let (r, g, e') = on_some-inverse (config_step x s) more (t, saved) e in
      let (q, g', e'') =
        on_some-inverse (config_run xs r.0) (λ q. some (q.0, r.1 ∷ q.1)) (t, saved) e' in
      let first : published_step x s.base ≡ some (r.0.base, r.1) =
        sym (published-config_step x s h) ∙ ap published g in
      let rest = config_run-published_run xs r.0 q.0 q.1 (hs r g) g' in
      ap (λ w. on_some w (λ p. on_some (published_run xs p.0) (λ z. some (z.0, p.1 ∷ z.1)))) first
      ∙ ap (λ w. on_some w (λ z. some (z.0, r.1 ∷ z.1))) rest
      ∙ ap published_end e''
