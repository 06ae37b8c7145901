-- ===== src/Auth/Device/Reserve.antt =====
-- The two transactions of InitiateDeviceAuth, and what comes between them.
use stripelink.Prelude.{
  ℕ, ◌≤◌, String, true, ◌≡◌, ◌≢◌, ◌∙◌, subst, ap, sym, Option, some, List, arith, eq_iff,
}
use stripelink.Errors.{sentinel, wrap, device_auth_superseded, Result, ok, err}
use stripelink.World.{Env, World, Context, ◌>>=◌, lift, context_failure, time_now, map_err}
use stripelink.World.Rules.{Returns-lift, bind-ok, map_err-ok}
use stripelink.Transport.{Core}
use stripelink.Session.{
  AuthTokens, PendingDeviceAuth, AuthStorageState, max_uint64, next_generation, same_auth_tokens,
  unix_milli,
}
use stripelink.Session.Generation.{next_generation_fresh}
use stripelink.Session.Prepared.{IsPreparedPending, prepare_storage_snapshot_keeps}
use stripelink.Storage.{Storage, Others, here, transact-Committed}
use stripelink.Storage.Waits.{Others-trans}
use stripelink.Storage.Idle.{
  Idle-lift, Idle-map_err, Idle-time_now, Idle-raise_if, Idle-context_failure, Since, Since-bind,
  Since-bind-returned, Since-then-pure, Since-map_err,
}
use stripelink.Auth.Wire.{absolute_expiry, decode_required_json}
use stripelink.Auth.Tokens.{post_form, expect_success}
use stripelink.Auth.Device.{
  DeviceAuth, device_of, complete_device, pending_of, reserve, persist, initiate_values,
  effective_name, request_device_auth, initiate_device_auth,
}
use stripelink.Auth.Device.Commit.{persist_lem, post_form-Idle}

-- Once a flow has been reserved on a state whose generation is a uint64, a flow that was reserved
-- under that state's own generation can no longer be persisted; the new flow's generation is another.
pub persist-reserve :
    (s t : AuthStorageState) (now later : ℕ) (previous : Option AuthTokens) (p : PendingDeviceAuth)
    (out : Option AuthTokens × ℕ)
    → s.device_auth_generation ≤ max_uint64
    → reserve now s ≡ ok (t, out)
    → (persist s.device_auth_generation previous p later t ≡ err (sentinel device_auth_superseded))
      × (out.1 ≢ s.device_auth_generation)
unfolding reserve persist
persist-reserve s t now later previous p out h e =
    ground (arith, next_generation_fresh s.device_auth_generation)

reserve_lem :
    (now : ℕ) (s t : AuthStorageState) (out : Option AuthTokens × ℕ)
    → reserve now s ≡ ok (t, out)
    → (out.0 ≡ s.auth)
      × (out.1 ≡ next_generation s.device_auth_generation)
      × (t.device_auth_generation ≡ out.1)
unfolding reserve
reserve_lem now s t out h = ground arith

complete_device-IsPreparedPending :
    (now : ℕ) (wire da : DeviceAuth)
    → complete_device now wire ≡ ok da
    → IsPreparedPending (pending_of da)
unfolding complete_device pending_of absolute_expiry
complete_device-IsPreparedPending now wire da h = ground (
  arith,
  eq_iff wire.device_code "",
  eq_iff wire.user_code "",
  eq_iff wire.verification_url_complete "",
)

module _ {S : Type 0} {env : Env S} (storage : Storage env) (s : S) (before : List ℕ) where
  -- What the reservation has done over the store `s`: it met `first`, which the others have made of `s` by
  -- all that they had done up to its end, and left `store` with another generation and nothing else.
  pub record Reserved (out : Option AuthTokens × ℕ) (first : S) (store : S) (turns : List ℕ)
      : Type 0 where
    pub left : Others env s before first turns
    pub previous : out.0 ≡ (storage.view first).auth
    pub turn : out.1 ≡ next_generation (storage.view first).device_auth_generation
    pub generation : (storage.view store).device_auth_generation ≡ out.1

  -- How InitiateDeviceAuth that began over the store `s` leaves it when it returns `da`.
  pub record Initiated (da : DeviceAuth) (w' : World S) : Type 0 where
    -- the states that the two transactions met, and what the first has left with what others had done
    -- by then
    pub first : S
    pub reserved : S
    pub between : List ℕ
    pub met : S
    pub out : Option AuthTokens × ℕ
    pub reservation : Reserved out first reserved between
    pub left : Others env reserved between met w'.turns
    pub turn :
        (storage.view met).device_auth_generation
        ≡ next_generation (storage.view first).device_auth_generation
    pub same : same_auth_tokens (storage.view met).auth (storage.view first).auth ≡ true
    pub stored : (storage.view w'.store).pending_device_auth ≡ some (pending_of da)
    pub generation :
        (storage.view w'.store).device_auth_generation ≡ (storage.view met).device_auth_generation
    pub usable : IsPreparedPending (pending_of da)

  transact-Reserved :
      (ctx : Context) (w : World S) (out : Option AuthTokens × ℕ)
      → Others env s before w.store w.turns
      → (storage.transact ctx reserve w).0 ≡ ok out
      → let w' = (storage.transact ctx reserve w).1 in
        (first : S) × Reserved out first w'.store w'.turns
  transact-Reserved ctx w out since h =
      let c = transact-Committed storage ctx reserve w out h in
      let (previous, turn, bumped) = reserve_lem c.time (storage.view c.mid) c.new out c.called in
      let (kp, kg) = prepare_storage_snapshot_keeps (unix_milli c.time) c.new c.kept c.fit in
      (
        c.mid,
        record {
          left = Others-trans since c.reached;
          previous = previous;
          turn = turn;
          generation = ap (λ x. x.device_auth_generation) c.stored ∙ kg ∙ bumped;
        },
      )

  module _ (out : Option AuthTokens × ℕ) (first reserved : S) (between : List ℕ)
      (reservation : Reserved out first reserved between) where
    persist-Initiated :
        (ctx : Context) (da : DeviceAuth)
        → IsPreparedPending (pending_of da)
        → Since env reserved between
            (λ _. Initiated da)
            (storage.transact ctx (persist out.1 out.0 (pending_of da)))
    persist-Initiated ctx da usable = record {
      at = λ w u since h.
          let c = transact-Committed storage ctx (persist out.1 out.0 (pending_of da)) w u h in
          let t = c.time in
          let (g, same, _, p, k) =
            persist_lem out.1 out.0 (pending_of da) t (storage.view c.mid) c.new u c.called in
          let (kp, kg) = prepare_storage_snapshot_keeps (unix_milli t) c.new c.kept c.fit in
          record {
            first = first;
            reserved = reserved;
            between = between;
            met = c.mid;
            out = out;
            reservation = reservation;
            left = Others-trans since c.reached;
            turn = g ∙ reservation.turn;
            same =
                subst (λ x. same_auth_tokens (storage.view c.mid).auth x ≡ true)
                  reservation.previous same;
            stored = ap (λ x. x.pending_device_auth) c.stored ∙ kp ∙ p;
            generation = ap (λ x. x.device_auth_generation) c.stored ∙ kg ∙ k ∙ sym g;
            usable = usable;
          };
    }

module _ {S : Type 0} (env : Env S) (core : Core S) (storage : Storage env) where
  -- InitiateDeviceAuth from the reservation on
  requested-Initiated :
      (ctx : Context) (name : String) (s : S) (before : List ℕ) (out : Option AuthTokens × ℕ)
      (first reserved : S) (between : List ℕ)
      → Reserved storage s before out first reserved between
      → Since env reserved between
          (Initiated storage s before)
          (request_device_auth env core storage ctx name out)
  unfolding request_device_auth
  requested-Initiated ctx name s before out first reserved between reservation =
      Since-bind (post_form env core ctx "/device/code" (initiate_values name env.hostname)) _
        (post_form-Idle env core ctx _ _)
        λ r.
          Since-bind (expect_success env core "Device auth initiation failed" r) _
            (Idle-raise_if env _ _)
            λ _.
              Since-bind
                (map_err (wrap "decode device authorization response")
                  (lift (decode_required_json env.parse_json device_of r.body)))
                _ (Idle-map_err env _ _ (Idle-lift env _))
                λ wire. Since-bind time_now _ (Idle-time_now env) λ now.
                  Since-bind-returned (lift (complete_device now wire)) _ (Idle-lift env _)
                    (Returns-lift _ (complete_device-IsPreparedPending now wire))
                    λ d usable.
                      Since-then-pure
                        (map_err (wrap "persist pending device authorization")
                          (storage.transact ctx (persist out.1 out.0 (pending_of d))))
                        d
                        (Since-map_err _ _ (
                          persist-Initiated storage s before out first reserved between reservation
                            ctx d usable))

  reserved-Initiated :
      (ctx : Context) (name : String) (s : S) (before : List ℕ)
      → Since env s before (Initiated storage s before) (
          map_err (wrap "reserve device authorization") (storage.transact ctx reserve)
          >>= request_device_auth env core storage ctx name)
  reserved-Initiated ctx name s before = record {
    at = λ w da since h.
        let m = map_err (wrap "reserve device authorization") (storage.transact ctx reserve) in
        let (out, kept, rest) = bind-ok m (request_device_auth env core storage ctx name) w h in
        let w1 = (m w).1 in
        let (first, reservation) = transact-Reserved storage s before ctx w out since (
          map_err-ok (wrap "reserve device authorization") (storage.transact ctx reserve) w kept) in
        subst (λ (o : Result DeviceAuth × World S). Initiated storage s before da o.1) (sym rest)
          ((requested-Initiated ctx name s before out first w1.store w1.turns reservation).at w1 da
            here (ap (λ (o : Result DeviceAuth × World S). o.0) (sym rest) ∙ h));
  }

  -- InitiateDeviceAuth returns only if its flow is the one in the store, with nothing missing. The
  -- transaction that persisted it met what the others have made of the store that the reservation had
  -- left, by all that they did in between, and found there the generation that had been reserved and the
  -- credentials that the reservation had met; the reservation met what others had made of the store by
  -- then.
  pub initiate_device_auth-Initiated :
      (ctx : Context) (names : List String) (w : World S) (da : DeviceAuth)
      → let o = initiate_device_auth env core storage ctx names w in
        o.0 ≡ ok da → Initiated storage w.store w.turns da o.1
  unfolding initiate_device_auth
  initiate_device_auth-Initiated ctx names w da h =
      (Since-bind (context_failure ctx) _ (Idle-context_failure env ctx) λ _.
          Since-bind (lift (effective_name core.client_name names)) _ (Idle-lift env _)
            λ name. reserved-Initiated ctx name w.store w.turns).at
        w da here h
