-- ===== src/Switch/Idle.antt =====
-- A whole connection: what the switch forwards of it.
use aosproject.Prelude.{
  ℕ, ◌∙◌, ◌≤◌, ◌<◌, ◌≡◌, refl, sym, subst, ap, ◌⊎◌, inl, inr, Bool, true, false, ◌||◌,
  if◌then◌else◌, Option, none, some, List, [], ◌∷◌, arith, ltb, ◌==◌, Bool-cases, length, All,
  All-append, to_unsigned,
}
use aosproject.Text.{Bytes}
use aosproject.Text.Stream.{strtol}
use aosproject.Network.Frame.{byte_at, c_string}
use aosproject.Switch.Session.{
  Calls, digit, Session, reply, buffer_size, handle_message, bytes, shutdown, failed, Event, serve,
  log_file_name, handle,
}
use aosproject.Switch.Forwarding.{IsDropped, IsServed, handle_message-IsServed}

-- A message that is to be forwarded, and one that ends the connection.
abbrev pub IsForward : ℕ → ℕ → Bytes → Type 0
IsForward net_status rand message =
    let t = byte_at message 0 in (1 ≤ t) × (t ≤ 45) × (¬ IsDropped net_status rand t)

abbrev pub IsEnd : ℕ → ℕ → Bytes → Type 0
IsEnd net_status rand message =
    let t = byte_at message 0 in (t ≡ 46) × (¬ IsDropped net_status rand t)

-- Before the connection ends, a message comes that is to be forwarded.
abbrev pub HasForward : ℕ → List Event → Type 0
HasForward net_status [] = ⊥
HasForward net_status ((bytes message, rand, calls) ∷ events) =
    IsForward net_status rand message
    ⊎ ((¬ IsEnd net_status rand message) × HasForward net_status events)
HasForward net_status ((shutdown, rand, calls) ∷ events) = ⊥
HasForward net_status ((failed, rand, calls) ∷ events) = ⊥

-- A message does not fill the buffer.
abbrev pub IsShort : Event → Type 0
IsShort (bytes message, rand, calls) = length message < buffer_size
IsShort (shutdown, rand, calls) = Unit {0}
IsShort (failed, rand, calls) = Unit {0}

-- Nothing was forwarded, and nothing but the digit 0 was answered.
abbrev pub IsIdle : Session → Type 0
IsIdle s = (s.forwarded ≡ []) × All (λ r. r ≡ digit 0) s.replies

IsServed-IsIdle :
    (net_status rand : ℕ) (message : Bytes) (s s' : Session)
    → IsServed net_status rand message s s'
    → IsIdle s
    → IsIdle s'
IsServed-IsIdle net_status rand message s s' (log, same, said, ended) (f, zeros) = (
  same ∙ f,
  subst (All (λ r. r ≡ digit 0)) (sym said)
      (All-append (λ r. r ≡ digit 0) s.replies (digit 0 ∷ []) zeros (refl, tt)),
)

serve_next :
    (net_status rand : ℕ) (calls : Calls) (message : Bytes) (events : List Event) (s s1 : Session)
    (b : Bool)
    → handle_message net_status rand calls message s ≡ some s1
    → s1.is_open ≡ b
    → serve net_status ((bytes message, rand, calls) ∷ events) s
      ≡ (if b then serve net_status events s1 else some s1)
unfolding serve
serve_next net_status rand calls message events s s1 b e on =
    rw e (ap (λ c. if c then serve net_status events s1 else some s1) on)

-- The two ways of a connection, and the condition of each.
Ways : ℕ → List Event → Option Session → Type 0
Ways net_status events r =
    (HasForward net_status events × (r ≡ none))
    ⊎ ((¬ HasForward net_status events) × (s : Session) × (r ≡ some s) × IsIdle s)

answered-IsForward :
    (net_status rand : ℕ) (message : Bytes)
    → (byte_at message 0 ≡ 0)
      ⊎ ((46 < byte_at message 0) ⊎ IsDropped net_status rand (byte_at message 0))
    → (¬ IsForward net_status rand message) × (¬ IsEnd net_status rand message)
answered-IsForward net_status rand message w =
    ((λ h. ground (arith, w, h)), (λ h. ground (arith, w, h)))

serve-Ways :
    (net_status : ℕ) (events : List Event) (s : Session)
    → All IsShort events
    → s.is_open ≡ true
    → IsIdle s
    → Ways net_status events (serve net_status events s)
unfolding serve Ways
serve-Ways net_status [] s h o i = inr ((λ e. elim e [ ]), s, refl, i)
serve-Ways net_status ((bytes message, rand, calls) ∷ events) s (small, h) o i =
    elim (handle_message-IsServed net_status rand calls message s small) [
      | inl (l, u, kept, e) ↦ inl (inl (l, u, kept), rw e refl)
      | inr (s1, e, (log, same, said, inl (is_end, kept, off))) ↦ inr (
        (λ g. elim g [
          | inl (l, u, k) ↦ absurd (omega (arith, u, is_end))
          | inr (goes_on, later) ↦ absurd (goes_on (is_end, kept))
        ]),
        s1,
        serve_next net_status rand calls message events s s1 false e off,
        IsServed-IsIdle net_status rand message s s1 (log, same, said, inl (is_end, kept, off)) i,
      )
      | inr (s1, e, (log, same, said, inr (w, on))) ↦
          let is_open : s1.is_open ≡ true = on ∙ o in
          let (not_forward, not_end) = answered-IsForward net_status rand message w in
          let idle =
            IsServed-IsIdle net_status rand message s s1 (log, same, said, inr (w, on)) i in
          let first = serve_next net_status rand calls message events s s1 true e is_open in
          elim (serve-Ways net_status events s1 h is_open idle) [
            | inl (g, stuck) ↦ inl (inr (not_end, g), first ∙ stuck)
            | inr (g, s', done, idle') ↦ inr (
              (λ b. elim b [ inl now ↦ absurd (not_forward now) | inr (k, later) ↦ g later ]),
              s',
              first ∙ done,
              idle',
            )
          ]
    ]
serve-Ways net_status ((shutdown, rand, calls) ∷ events) s h o i =
    inr ((λ e. elim e [ ]), record s { is_open = false }, refl, i)
serve-Ways net_status ((failed, rand, calls) ∷ events) s h o i =
    inr ((λ e. elim e [ ]), record s { is_open = false }, refl, i)

-- What a connection comes to whose messages do not fill the buffer, whatever the network does. If the
-- number that `strtol` reads of the first message, as an `unsigned int`, is not from 1 to 45, the answer
-- is the digit 1, and nothing is logged. For another number, a name is written behind the end of `to_addr` exactly if, before the connection
-- ends, a message comes that is to be forwarded: its first byte is between 1 and 45, and it is not
-- dropped. If none comes, the connection is served, nothing is forwarded, and every answer is the
-- digit 0.
pub handle_forwards_nothing :
    (net_status : ℕ) (first : Bytes) (events : List Event)
    → All IsShort events
    → let number = to_unsigned (strtol (c_string first)) in
      (((number ≡ 0) ⊎ (45 < number))
        × (s : Session) × (handle net_status first events ≡ some s)
        × (s.log ≡ [])
        × (s.replies ≡ digit 1 ∷ []))
      ⊎ (((1 ≤ number) × (number ≤ 45))
          × ((HasForward net_status events × (handle net_status first events ≡ none))
              ⊎ ((¬ HasForward net_status events)
                  × (s : Session) × (handle net_status first events ≡ some s)
                  × IsIdle s)))
unfolding handle reply Ways
handle_forwards_nothing net_status first events h =
    let n = to_unsigned (strtol (c_string first)) in
    let start : Session = record {
      is_open = true;
      log_name = log_file_name n;
      log = [];
      replies = digit 0 ∷ [];
      forwarded = [];
    } in
    elim (Bool-cases (ltb 45 n || n == 0)) [
      | inl invalid ↦ inl (
        ground (arith, invalid),
        record { is_open = false; log_name = []; log = []; replies = digit 1 ∷ []; forwarded = [] },
        rw invalid refl,
        refl,
        refl,
      )
      | inr valid ↦ inr (
        ground (arith, valid),
        rw valid (serve-Ways net_status events start h refl (refl, (refl, tt))),
      )
    ]
