-- ===== src/Signal/Daemon/Replay.antt =====
-- Replays of a packet against the daemon's time window and nonce cache.
use herdr_bridge.Prelude.{
  ℕ, ◌+◌, ◌≤◌, ◌<◌, ◌≡◌, ap, true, false, none, some, List, [], ◌∷◌, ◌++◌, String, text_key, arith,
  inl, inr, Option-cases, All, All-map,
}
use herdr_bridge.Signal.Envelope.{Envelope, default_ttl}
use herdr_bridge.Signal.Store.{Rows}
use herdr_bridge.Signal.Daemon.Nonces.{Holds, check-Holds, Holds-refused, check-accepted}
use herdr_bridge.Signal.Daemon.Connection.{
  nonce_iff, Passes, reply-Passes, handle-Passes, nonces-handle,
}
use herdr_bridge.Signal.Daemon.{
  Daemon, Nonces, nonce_ttl, forget_expired, has_seen, Config, Line, line, end_of_file,
  check_and_record_nonce, check_nonce, handle_connection, accept,
}

-- A connection: the clock, the line, and the ACK table at that time.
pub record Arrival : Type 0 where
  pub now : ℕ
  pub input : Line
  pub table : Rows

-- The connections of a daemon, one after another.
unfoldable pub serve : Config → List Arrival → Daemon → Daemon
serve c [] d = d
serve c (a ∷ rest) d = serve c rest (handle_connection c a.now a.input a.table d).daemon

module _ (c : Config) (n : String) (exp : ℕ) where
  nonce-Holds :
      (now : ℕ) (e : Envelope) (t : Rows) (d : Daemon)
      → now ≤ exp
      → Holds n exp d.nonce_seen
      → Holds n exp (check_nonce now e t d).daemon.nonce_seen
  unfolding check_nonce accept
  nonce-Holds now e t d le h = ground (arith, check-Holds n e.nonce exp now d.nonce_seen le h)

  -- A connection up to the time `exp` keeps the nonce.
  handle-Holds :
      (now : ℕ) (l : Line) (t : Rows) (d : Daemon)
      → now ≤ exp
      → Holds n exp d.nonce_seen
      → Holds n exp (handle_connection c now l t d).daemon.nonce_seen
  unfolding handle_connection
  handle-Holds now end_of_file t d le h = h
  handle-Holds now (line bytes none) t d le h = h
  handle-Holds now (line bytes (some e)) t d le h = ground (arith, nonce-Holds now e t d le h)

  serve-Holds :
      (arrivals : List Arrival) (d : Daemon)
      → All (λ a. a.now ≤ exp) arrivals
      → Holds n exp d.nonce_seen
      → Holds n exp (serve c arrivals d).nonce_seen
  unfolding serve
  serve-Holds [] d le h = h
  serve-Holds (a ∷ rest) d le h =
      serve-Holds rest _ le.1 (handle-Holds a.now a.input a.table d le.0 h)

module _ (c : Config) (e : Envelope) where
  -- Once a packet that is not dated in the future has been answered, the daemon never answers it
  -- again, whatever connections come in between, if the clock of none of them is later than that of
  -- the replay.
  pub replay_refused :
      (now bytes : ℕ) (t : Rows) (d : Daemon) (m : String) (between : List Arrival)
      → e.timestamp ≤ now
      → (handle_connection c now (line bytes (some e)) t d).reply ≡ some m
      → (now' bytes' : ℕ) (t' : Rows) → All (λ a. a.now ≤ now') between
      → let d' = serve c between (handle_connection c now (line bytes (some e)) t d).daemon in
        (handle_connection c now' (line bytes' (some e)) t' d').reply ≡ none
  replay_refused now bytes t d m between past answered now' bytes' t' times =
      let d1 = (handle_connection c now (line bytes (some e)) t d).daemon in
      let first = reply-Passes c now bytes e t d m answered in
      let held : Holds e.nonce (now + nonce_ttl) d1.nonce_seen =
        rw (nonces-handle c now bytes e t d first) (
          check-accepted e.nonce now d.nonce_seen
            ((nonce_iff now e.nonce d.nonce_seen).1 first.fresh)) in
      elim (Option-cases
        (handle_connection c now' (line bytes' (some e)) t' (serve c between d1)).reply) [
          | inl refused ↦ refused
          | inr (m', again) ↦
              let second = reply-Passes c now' bytes' e t' (serve c between d1) m' again in
              let late : now' ≤ now + nonce_ttl = omega (arith, second.authentic) in
              let still =
                serve-Holds c e.nonce (now + nonce_ttl) between d1
                  (All-map between (λ a le. omega arith) times) held in
              absurd (
                cc (
                  (nonce_iff now' e.nonce (serve c between d1).nonce_seen).1 second.fresh,
                  Holds-refused e.nonce (now + nonce_ttl) now' (serve c between d1).nonce_seen late
                      still,
                ))
        ]

-- Entries of the nonce that outlive a sweep.
unseen-append :
    (n : String) (now now' exp : ℕ) (s : Nonces)
    → now ≤ now'
    → exp < now'
    → has_seen n (forget_expired now s) ≡ false
    → has_seen n (forget_expired now' (forget_expired now s ++ (n, exp) ∷ [])) ≡ false
unfolding has_seen forget_expired
unseen-append n now now' exp [] le lt h = ground arith
unseen-append n now now' exp ((k, x) ∷ s) le lt h =
    ground (arith, unseen-append n now now' exp s le lt)

check-after :
    (n : String) (now now' : ℕ) (s : Nonces)
    → now + nonce_ttl < now'
    → (check_and_record_nonce now n s).0 ≡ true
    → (check_and_record_nonce now' n (check_and_record_nonce now n s).1).0 ≡ true
unfolding check_and_record_nonce
check-after n now now' s lt h = ground (arith, unseen-append n now now' (now + nonce_ttl) s)

module _ (c : Config) (e : Envelope) where
  -- A packet that is dated in the future is answered twice: once it has been answered, the daemon
  -- answers it again as soon as the nonce cache has dropped its nonce, up to the end of its time
  -- window, which comes later.
  pub replay_accepted :
      (now bytes : ℕ) (t : Rows) (d : Daemon) (m : String)
      → (handle_connection c now (line bytes (some e)) t d).reply ≡ some m
      → (now' : ℕ) (t' : Rows) → now + nonce_ttl < now'
      → now' ≤ e.timestamp + default_ttl
      → let d' = (handle_connection c now (line bytes (some e)) t d).daemon in
        (handle_connection c now' (line bytes (some e)) t' d').reply ≡ some e.message_id
  replay_accepted now bytes t d m answered now' t' forgotten in_time =
      let d' = (handle_connection c now (line bytes (some e)) t d).daemon in
      let first = reply-Passes c now bytes e t d m answered in
      let second : Passes c now' bytes e d' = record {
        fits = first.fits;
        same_host = first.same_host;
        authentic = (first.authentic.0, in_time, omega (arith, first.authentic));
        fresh = rw (nonces-handle c now bytes e t d first) (
            (nonce_iff now' e.nonce (check_and_record_nonce now e.nonce d.nonce_seen).1).0 (
              check-after e.nonce now now' d.nonce_seen forgotten
                ((nonce_iff now e.nonce d.nonce_seen).1 first.fresh)));
      } in
      ap (λ h. h.reply) (handle-Passes c now' bytes e t' d' second)
