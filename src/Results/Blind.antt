-- ===== src/Results/Blind.antt =====
-- What the switches log of the nodes holds no request as `get_results` reads one.
use aosproject.Prelude.{
  ℕ, ◌/◌, ◌%◌, ◌≤◌, ◌≡◌, refl, sym, ap, ◌∙◌, subst, ◌≢◌, ◌⊎◌, inl, inr, false, some, List, [], ◌∷◌,
  ◌++◌, append_assoc, arith, ◌==◌, Bool-cases, drop, All, All-append, pos,
}
use aosproject.Text.{Bytes, show_int, show_nat, IsDigit}
use aosproject.Text.Decimal.{show_nat-All}
use aosproject.Node.State.{Packet}
use aosproject.Node.Config.{Files, newline, lines, add_byte}
use aosproject.Network.Frame.{frame, le_bytes, c_string, byte_at}
use aosproject.Switch.Session.{log_lines}
use aosproject.Quorum.Write.{host}
use aosproject.Quorum.ReadBack.{lines_host}
use aosproject.Results.Log.{log_name, Data, get_results}
use aosproject.Results.Log.Quiet.{IsQuiet, get_results-quiet}

-- A packet as the nodes send them: from the host of a node, to one or to the switch itself (255), at
-- a time within a run.
abbrev pub IsNodePacket : Packet → Type 0
IsNodePacket p =
    (p.from ≤ 45)
    × (p.from % 5 ≢ 0)
    × ((p.to ≡ 255) ⊎ ((p.to ≤ 45) × (p.to % 5 ≢ 0)))
    × (p.timestamp ≤ 60000)

-- What a switch writes to its log for the frames of some packets, with the memory behind each text and
-- the length that it logs.
abbrev pub Entries : Type 0
Entries = List (Packet × Bytes × ℕ)

unfoldable pub logged : Entries → Bytes
unfolding log_lines frame
logged [] = []
logged ((p, behind, n) ∷ es) = log_lines (frame p behind) n ++ logged es

lines_ne_nil : (s rest : Bytes) → lines (s ++ (newline ∷ rest)) ≢ []
unfolding lines add_byte
lines_ne_nil [] rest e = cc
lines_ne_nil (c ∷ s) rest e = ground (arith, e, lines_ne_nil s rest)

add_byte-append :
    (c : ℕ) (xs ys : List Bytes) → xs ≢ [] → add_byte c (xs ++ ys) ≡ add_byte c xs ++ ys
unfolding add_byte
add_byte-append c [] ys h = absurd (h refl)
add_byte-append c (x ∷ xs) ys h = refl

lines-append :
    (s rest : Bytes) → lines (s ++ (newline ∷ rest)) ≡ lines (s ++ (newline ∷ [])) ++ lines rest
unfolding lines
lines-append [] rest = refl
lines-append (c ∷ s) rest = elim (Bool-cases (c == newline)) [
  | inl e ↦ rw e (ap (λ ls. [] ∷ ls) (lines-append s rest))
  | inr e ↦ rw e (
      ap (add_byte c) (lines-append s rest)
      ∙ add_byte-append c (lines (s ++ (newline ∷ []))) (lines rest) (lines_ne_nil s []))
]

digits-IsQuiet : (s : Bytes) → All IsDigit s → IsQuiet s
unfolding byte_at
digits-IsQuiet [] h = inl (λ e. omega (arith, e))
digits-IsQuiet (c ∷ s) h = inl (λ e. omega (arith, e, h.0.1))

length-IsQuiet : (n : ℕ) → All IsQuiet (lines (show_int (pos n) ++ (newline ∷ [])))
unfolding show_int
length-IsQuiet n = rw lines_host (digits-IsQuiet (show_nat n) (show_nat-All n), unfold lines in tt)

-- The head of a frame: only its first lines can begin as a request, and they do not.
head-IsQuiet :
    (a b c d : ℕ) (rest : Bytes)
    → a ≢ newline
    → b ≢ newline
    → b ≢ b'3'
    → d ≢ 255
    → All IsQuiet (lines (c_string (a ∷ (b ∷ (c ∷ (d ∷ (0 ∷ rest))))) ++ (newline ∷ [])))
unfolding c_string lines add_byte byte_at
head-IsQuiet a b c d rest ha hb hc hd = ground arith

frame_head :
    (p : Packet) (behind : Bytes)
    → p.timestamp ≤ 60000
    → (rest : Bytes) × (frame p behind
        ≡ p.to % 256
          ∷ (p.from % 256 ∷ (p.timestamp % 256 ∷ (p.timestamp / 256 % 256 ∷ (0 ∷ rest)))))
unfolding frame le_bytes
frame_head p behind time =
    let zero_byte : p.timestamp / 256 / 256 % 256 ≡ 0 = omega (arith, time) in
    let rest = drop 5 (frame p behind) in
    (
      rest,
      ap
          (λ z.
            p.to % 256
            ∷ (p.from % 256 ∷ (p.timestamp % 256 ∷ (p.timestamp / 256 % 256 ∷ (z ∷ rest)))))
          zero_byte,
    )

frame-IsQuiet :
    (p : Packet) (behind : Bytes)
    → IsNodePacket p
    → All IsQuiet (lines (c_string (frame p behind) ++ (newline ∷ [])))
frame-IsQuiet p behind (from, node, to, time) =
    let (rest, e) = frame_head p behind time in
    rw e (
      head-IsQuiet (p.to % 256) (p.from % 256) (p.timestamp % 256) (p.timestamp / 256 % 256) rest
        (omega (arith, to)) (omega (arith, from, node)) (omega (arith, from)) (omega (arith, time)))

logged-IsQuiet : (es : Entries) → All (λ e. IsNodePacket e.0) es → All IsQuiet (lines (logged es))
unfolding logged log_lines
logged-IsQuiet [] h = unfold lines in tt
logged-IsQuiet ((p, behind, n) ∷ es) (h, hs) =
    let text = c_string (frame p behind) in
    let tail = show_int (pos n) ++ (newline ∷ logged es) in
    subst (All IsQuiet) (sym (split text n (logged es))) (
      All-append IsQuiet (lines (text ++ (newline ∷ []))) _ (frame-IsQuiet p behind h) (
        All-append IsQuiet (lines (show_int (pos n) ++ (newline ∷ []))) (lines (logged es))
          (length-IsQuiet n) (logged-IsQuiet es hs)))
  where
    split :
        (text : Bytes) (n : ℕ) (rest : Bytes)
        → lines ((text ++ (newline ∷ (show_int (pos n) ++ (newline ∷ [])))) ++ rest)
          ≡ lines (text ++ (newline ∷ []))
            ++ (lines (show_int (pos n) ++ (newline ∷ [])) ++ lines rest)
    split text n rest =
        ap lines (
          append_assoc text (newline ∷ (show_int (pos n) ++ (newline ∷ []))) rest
          ∙ ap (λ l. text ++ (newline ∷ l)) (append_assoc (show_int (pos n)) (newline ∷ []) rest))
        ∙ lines-append text (show_int (pos n) ++ (newline ∷ rest))
        ∙ ap (λ l. lines (text ++ (newline ∷ [])) ++ l) (lines-append (show_int (pos n)) rest)

-- Whatever up to 36 nodes have sent within a run, control messages included, from their hosts to
-- each other or to the switch: if the log of each host is what a switch logs for such frames, then
-- the test bed finds no critical section in it, and reports that there was no conflict, no running
-- time and no wait.
pub get_results_blind :
    (n : ℕ) (files : Files) (log : ℕ → Entries)
    → n ≤ 36
    → ((y : ℕ) → 1 ≤ y → y ≤ n → files (log_name (host y)) ≡ logged (log y))
    → ((y : ℕ) → 1 ≤ y → y ≤ n → All (λ e. IsNodePacket e.0) (log y))
    → (d : Data) × (get_results n files ≡ some d)
      × (d.conflict ≡ false)
      × (d.runtime ≡ 0)
      × (d.avg_wait ≡ 0)
get_results_blind n files log u f h =
    get_results-quiet n files u (λ y l m. rw (f y l m) (logged-IsQuiet (log y) (h y l m)))
