-- ===== src/Module/Started.antt =====
-- `init` of de_databus/de_module.cpp ends with a client that is started.
use droneengage_common.Common.{
  ℕ, zero, suc, ◌<◌, ◌≡◌, refl, sym, ap, subst, ◌∙◌, Bool, true, false, not, ◌&&◌, Option, none,
  some, String, str_eq, [], ◌∷◌, arith, if_rule, Bool-cases, inl, inr, if◌then◌else◌,
}
use droneengage_common.Common.Int.{ℤ, pos, negsuc}
use droneengage_common.Common.Float.{FloatOps}
use droneengage_common.Common.Assoc.{Assoc, lookup, insert}
use droneengage_common.Json.{Json, boolean, at}
use droneengage_common.Config.Merge.{assign_all, put, at-put}
use droneengage_common.Bus.Udp
use droneengage_common.Bus.Udp.{UdpClient}
use droneengage_common.Bus.Unix
use droneengage_common.Bus.Unix.{UnixClient}
use droneengage_common.Module.State.{
  Module, Transport, unset, over_udp, over_unix, create_json_id, id_fields,
}
use droneengage_common.Module.Init.{
  Host, not_initialized, is_localhost, get_unix_socket_base_dir, paths_fit, start_unix, start_udp,
  with_transport, try_unix, use_udp, after_unix, choose_transport, chunk_size_for, new_reporter,
  init,
}

-- A client that is started and has its socket, and was not stopped: it sends.
abbrev pub is_running : Transport → Bool
is_running unset = false
is_running (over_udp c) = c.started && (c.socket_open && not c.stopped)
is_running (over_unix c) = c.started && (c.socket_open && not c.stopped)

abbrev IsUp : Option Transport → Type 0
IsUp r = (t : Transport) × (r ≡ some t) × (is_running t ≡ true)

abbrev fresh_udp : ℕ → UdpClient
fresh_udp size = record Udp.new_client { chunk_size = size; socket_open = true; addresses = true }

abbrev fresh_unix : ℕ → UnixClient
fresh_unix size = record Unix.new_client { chunk_size = size }

init_udp :
    (size : ℕ)
    → 0 < size
    → size < 0xffff
    → Udp.init true true size Udp.new_client ≡ some (fresh_udp size)
unfolding Udp.init
init_udp size low high = ground arith

init_unix : (size : ℕ) → 0 < size → Unix.init size Unix.new_client ≡ some (fresh_unix size)
unfolding Unix.init
init_unix size low = ground arith

started_udp : (size : ℕ) → is_running (over_udp (Udp.start (fresh_udp size))) ≡ true
unfolding Udp.start
started_udp size = refl

-- A Unix client that is started after its first start has its socket.
started_unix :
    (made bound : Bool) (size : ℕ)
    → (Unix.start made bound (fresh_unix size)).started ≡ true
    → is_running (over_unix (Unix.start made bound (fresh_unix size))) ≡ true
unfolding Unix.start
started_unix made bound size h = ground (arith, h)

module _ (host : Host) (made : host.udp_socket_made ≡ true) (bound : host.udp_socket_bound ≡ true)
    (size : ℕ) (low : 0 < size) (high : size < 0xffff) where
  use_udp-IsUp : IsUp (use_udp host size Udp.new_client)
  unfolding use_udp start_udp
  use_udp-IsUp = (
    over_udp (Udp.start (fresh_udp size)),
    ap (λ a. start_udp (Udp.init a host.udp_socket_bound size Udp.new_client)) made
        ∙ ap (λ b. start_udp (Udp.init true b size Udp.new_client)) bound
        ∙ ap start_udp (init_udp size low high),
    started_udp size,
  )

  after_unix-IsUp :
      (c : UnixClient)
      → (c.started ≡ true → is_running (over_unix c) ≡ true)
      → IsUp (after_unix (some (if c.started then some c else none)) host size Udp.new_client)
  unfolding after_unix
  after_unix-IsUp c runs = elim (Bool-cases c.started) [
    | inl e ↦ (over_unix c, simp e refl, runs e)
    | inr e ↦
        subst (λ b. IsUp (after_unix (some (if b then some c else none)) host size Udp.new_client))
          (sym e) use_udp-IsUp
  ]

  try_unix-IsUp : IsUp (after_unix (try_unix host size Unix.new_client) host size Udp.new_client)
  unfolding try_unix start_unix
  try_unix-IsUp =
      subst (λ c. IsUp (after_unix (start_unix host c) host size Udp.new_client))
        (sym (init_unix size low))
        (after_unix-IsUp (Unix.start host.unix_socket_made host.unix_socket_bound (fresh_unix size))
          (started_unix host.unix_socket_made host.unix_socket_bound size))

  choose_transport-IsUp :
      (target : String) (use_unix : Bool) (dir id key : String)
      → IsUp (choose_transport host not_initialized target size use_unix dir id key)
  unfolding choose_transport
  choose_transport-IsUp target use_unix dir id key =
      let base = get_unix_socket_base_dir host dir in
      if_rule IsUp
        (use_unix && is_localhost target && not (str_eq base "") && paths_fit base id key) _ _
        (λ e. try_unix-IsUp) (λ e. use_udp-IsUp)

-- The size of a chunk is above zero.
chunk_size_for-pos : (chunk_size : ℤ) (target : String) → 0 < chunk_size_for chunk_size target
chunk_size_for-pos (negsuc n) target =
    if_rule (λ k. 0 < k) (is_localhost target) _ _ (λ e. omega arith) (λ e. omega arith)
chunk_size_for-pos (pos zero) target =
    if_rule (λ k. 0 < k) (is_localhost target) _ _ (λ e. omega arith) (λ e. omega arith)
chunk_size_for-pos (pos (suc n)) target = omega arith

module _ {F : Type 0} where
  abbrev field_of : String → Option (Json F) → Option (Json F)
  field_of k none = none
  field_of k (some j) = at k j

  -- A field of the ID message.
  abbrev pub id_field : String → Option (Json F) → Option (Json F)
  id_field k j = field_of k (field_of "ms" j)

  at-assign_all :
      (k : String) (j : Json F) (entries : Assoc (Json F))
      → lookup k entries ≡ none
      → at k (assign_all j entries) ≡ at k j
  unfolding assign_all lookup
  at-assign_all k j [] h = refl
  at-assign_all k j ((name, v) ∷ entries) h = elim (Bool-cases (str_eq name k)) [
    | inl e ↦ absurd (ground (arith, h, e))
    | inr e ↦
        at-assign_all k (put name v j) entries (ground (arith, h, e))
        ∙ at-put name k v j
        ∙ ap (λ b. if b then some v else at k j) e
  ]

  -- The field "z" is the flag, unless a field of the module takes its place.
  id_field-create_json_id :
      (asks : Bool) (m : Module F)
      → lookup "z" m.stdin_values ≡ none
      → id_field "z" (create_json_id asks m).json_id ≡ some (boolean asks)
  unfolding create_json_id id_fields assign_all insert lookup
  id_field-create_json_id asks m h = at-assign_all "z" _ m.stdin_values h

module _ {F : Type 0} ⦃o : FloatOps F⦄ where
  -- Where the UDP socket can be made and bound, and the chunk size is below 65535, the first `init` of a module ends with
  -- an initialised module whose client is started, with its socket, and not stopped, whatever becomes of the socket
  -- directory, of the socket paths and of the Unix socket. Its ID message asks for a reply, if no field "z" was
  -- appended to it.
  pub init-IsUp :
      (host : Host) (target : String) (chunk_size : ℤ) (use_unix : Bool) (dir : String)
      (config : Json F) (m : Module F)
      → host.udp_socket_made ≡ true
      → host.udp_socket_bound ≡ true
      → chunk_size_for chunk_size target < 0xffff
      → lookup "z" m.stdin_values ≡ none
      → (t : Module F) × (init host not_initialized target chunk_size use_unix dir config m
          ≡ some (new_reporter host config, t))
        × (is_running t.transport ≡ true)
        × (t.initialized ≡ true)
        × (id_field "z" t.json_id ≡ some (boolean true))
  unfolding init with_transport create_json_id
  init-IsUp host target chunk_size use_unix dir config m made bound high unnamed =
      let (t, e, up) =
        choose_transport-IsUp host made bound (chunk_size_for chunk_size target)
          (chunk_size_for-pos chunk_size target) high target use_unix dir m.module_id
          m.module_key in
      (
        record (create_json_id true (record m { transport = t })) { initialized = true },
        ap (λ r. with_transport r host config m) e,
        up,
        refl,
        id_field-create_json_id true (record m { transport = t }) unnamed,
      )
