-- ===== src/Client/Launch/Waiting.antt =====
-- When `wait_for_server` of crates/netfilum-client/src/mount.rs returns, and what.
use netfilum.Prelude.{
  ℕ, Bool, true, false, zero, suc, ◌+◌, ◌*◌, ◌≤◌, ◌<◌, ◌≡◌, refl, arith, ◌⊎◌, subst, Option-cases,
  inl, inr, Option, none, some,
}
use netfilum.Prelude.Texts.{Text}
use netfilum.Prelude.Results.{ok, err, Result-cases}
use netfilum.Protocol.{Request, Response, VolumeInfoData}
use netfilum.Protocol.Errors.{IoError}
use netfilum.Rpc.{Crypto}
use netfilum.Client.RpcClient.{RpcClient, new_client}
use netfilum.Client.Launch.{
  System, Outcome, shutdown_poll, server_ready_timeout, exited_text, timed_out_text,
  unexpected_text, wait_turn, wait_loop, wait_for_server,
}

-- `Instant` does not go back, and `thread::sleep` takes at least the time that it is given.
pub record IsClock (Y : System) : Type 0 where
  pub send-le : (c : RpcClient) (r : Request) (w : Y.World) → Y.clock w ≤ Y.clock (Y.send c r w).1
  pub try_wait-le : (w : Y.World) → Y.clock w ≤ Y.clock (Y.try_wait w).1
  pub sleep-le : (n : ℕ) (w : Y.World) → Y.clock w + n ≤ Y.clock (Y.sleep n w)

abbrev is_volume : Response → Bool
is_volume (Response.volume_info volume) = true
is_volume _ = false

Volume-cases :
    (r : Response)
    → ((volume : VolumeInfoData) × (r ≡ Response.volume_info volume)) ⊎ (is_volume r ≡ false)
Volume-cases (Response.volume_info volume) = inl (volume, refl)
Volume-cases (Response.attr a) = inr refl
Volume-cases _ = inr refl

module _ (Y : System) (client : RpcClient) (addr : Text) (deadline : ℕ) where
  -- What the server says in a turn that begins in a world, and the world behind it.
  abbrev asked : Y.World → Y.World
  asked w = (Y.send client Request.get_volume_info w).1

  abbrev polled : Y.World → Y.World
  polled w = (Y.try_wait (asked w)).1

  -- The request fails in a turn, the child runs, and there is time left.
  pub record IsPending (w : Y.World) : Type 0 where
    pub error : IoError
    pub failed : (Y.send client Request.get_volume_info w).0 ≡ err error
    pub runs : (Y.try_wait (asked w)).0 ≡ ok none
    pub early : Y.clock (polled w) < deadline

  -- Turns that are pending, each behind a sleep.
  pub data Turns : ℕ → Y.World → Y.World → Type 0 where
    here : {w : Y.World} → Turns 0 w w
    slept :
        {n : ℕ} {w v : Y.World}
        → IsPending w
        → Turns n (Y.sleep shutdown_poll (polled w)) v
        → Turns (suc n) w v

  -- How the last turn ends: the volume's data, another response, or an error after which the child's
  -- state is unknown, the child has exited, or the time is up.
  pub data Ends : Y.World → Outcome → Type 0 where
    answered :
        {w : Y.World} (volume : VolumeInfoData)
        → (Y.send client Request.get_volume_info w).0 ≡ ok (Response.volume_info volume)
        → Ends w (ok tt)
    unexpected :
        {w : Y.World} (r : Response)
        → (Y.send client Request.get_volume_info w).0 ≡ ok r
        → is_volume r ≡ false
        → Ends w (err unexpected_text)
    unknown :
        {w : Y.World} (e x : IoError)
        → (Y.send client Request.get_volume_info w).0 ≡ err x
        → (Y.try_wait (asked w)).0 ≡ err e
        → Ends w (err e.message)
    exited :
        {w : Y.World} (x : IoError) (status : Text)
        → (Y.send client Request.get_volume_info w).0 ≡ err x
        → (Y.try_wait (asked w)).0 ≡ ok (some status)
        → Ends w (err (exited_text status))
    late :
        {w : Y.World} (x : IoError)
        → (Y.send client Request.get_volume_info w).0 ≡ err x
        → (Y.try_wait (asked w)).0 ≡ ok none
        → deadline ≤ Y.clock (polled w)
        → Ends w (err (timed_out_text addr x))

  turn-none :
      (w : Y.World)
      → (wait_turn Y client addr deadline w).0 ≡ none
      → IsPending w × ((wait_turn Y client addr deadline w).1 ≡ polled w)
  unfolding wait_turn
  turn-none w h = elim (Result-cases (Y.send client Request.get_volume_info w).0) [
    | inl (r, e) ↦ absurd (ground arith)
    | inr (x, e) ↦
        (record { error = x; failed = e; runs = ground arith; early = ground arith }, ground arith)
  ]

  turn-some :
      (w : Y.World) (r : Outcome) → (wait_turn Y client addr deadline w).0 ≡ some r → Ends w r
  unfolding wait_turn
  turn-some w r h = elim (Result-cases (Y.send client Request.get_volume_info w).0) [
    | inl (a, e) ↦ elim (Volume-cases a) [
      | inl (volume, f) ↦ subst (λ o. Ends w o) (ground arith) (answered volume (ground arith))
      | inr f ↦ subst (λ o. Ends w o) (ground arith) (unexpected a e f)
    ]
    | inr (x, e) ↦ elim (Result-cases (Y.try_wait (asked w)).0) [
      | inr (y, f) ↦ subst (λ o. Ends w o) (ground arith) (unknown y x e f)
      | inl (c, f) ↦ elim (Option-cases c) [
        | inr (status, g) ↦ subst (λ o. Ends w o) (ground arith) (exited x status e (ground arith))
        | inl g ↦ subst (λ o. Ends w o) (ground arith) (late x e (ground arith) (ground arith))
      ]
    ]
  ]

  -- Some turns are pending, at most so many, and then the loop returns at the end of a turn.
  pub record Waited (n : ℕ) (w : Y.World) (returned : Option (Outcome × Y.World)) : Type 0 where
    pub pending : ℕ
    pub last : Y.World
    pub outcome : Outcome
    pub bounded : pending ≤ n
    pub turns : Turns pending w last
    pub ends : Ends last outcome
    pub returns : returned ≡ some (outcome, (wait_turn Y client addr deadline last).1)

  ended :
      (n : ℕ) (w : Y.World) (r : Outcome)
      → (wait_turn Y client addr deadline w).0 ≡ some r
      → Waited n w (wait_loop Y (suc n) client addr deadline w)
  unfolding wait_loop
  ended n w r e = record {
    pending = 0;
    last = w;
    outcome = r;
    bounded = ground arith;
    turns = here;
    ends = turn-some w r e;
    returns = ground arith;
  }

  went_on :
      (n : ℕ) (w : Y.World)
      → (wait_turn Y client addr deadline w).0 ≡ none
      → (let next = Y.sleep shutdown_poll (polled w) in
          Waited n next (wait_loop Y (suc n) client addr deadline next))
      → Waited (suc n) w (wait_loop Y (suc (suc n)) client addr deadline w)
  unfolding wait_loop
  went_on n w e r =
      let (p, v) = turn-none w e in
      record {
        pending = suc r.pending;
        last = r.last;
        outcome = r.outcome;
        bounded = ground (arith, r.bounded);
        turns = slept p r.turns;
        ends = r.ends;
        returns = ground (arith, r.returns);
      }

  polled-le : (w : Y.World) → IsClock Y → Y.clock w ≤ Y.clock (polled w)
  polled-le w K = omega (arith, K.send-le client Request.get_volume_info w, K.try_wait-le (asked w))

  wait_loop-Waited :
      (n : ℕ) (w : Y.World)
      → IsClock Y
      → deadline ≤ Y.clock w + shutdown_poll * n
      → Waited n w (wait_loop Y (suc n) client addr deadline w)
  wait_loop-Waited zero w K h = elim (Option-cases (wait_turn Y client addr deadline w).0) [
    | inr (r, e) ↦ ended zero w r e
    | inl e ↦ absurd (omega (arith, (turn-none w e).0.early, polled-le w K))
  ]
  wait_loop-Waited (suc n) w K h = elim (Option-cases (wait_turn Y client addr deadline w).0) [
    | inr (r, e) ↦ ended (suc n) w r e
    | inl e ↦ went_on n w e (
        wait_loop-Waited n (Y.sleep shutdown_poll (polled w)) K
          (omega (arith, K.sleep-le shutdown_poll (polled w), polled-le w K)))
  ]

-- Where the client can be made, 226 turns are enough for the wait to return, whatever the server and the
-- child do, if the clock does not go back and a sleep takes its time: at most 225 turns are pending,
-- in which the request fails, the child runs and there is time left, and then one ends with the
-- volume's data, another response, the child's end or error, or the time being up.
pub wait_for_server-Waited :
    (Y : System) (C : Crypto) (client : RpcClient) (addr password : Text) (w : Y.World)
    → IsClock Y
    → new_client C addr password ≡ ok client
    → Waited Y client addr
        (Y.clock w + server_ready_timeout)
        225
        w
        (wait_for_server Y C 226 addr password w)
unfolding wait_for_server
wait_for_server-Waited Y C client addr password w K made =
    rw (made, wait_for_server)
      (wait_loop-Waited Y client addr (Y.clock w + server_ready_timeout) 225 w K (ground arith))
