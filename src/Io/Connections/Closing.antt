-- ===== src/Io/Connections/Closing.antt =====
-- The order of what the socket tasks of src/io.rs report of one association.
use gmv_pjsip.Prelude.{
  ℕ, ◌<◌, ◌≡◌, refl, inl, inr, Bool, true, false, ◌||◌, List, [], ◌∷◌, ◌++◌, Option, none, some,
  arith, ◌==◌, any, all, append_assoc, ltb, length, ◌&&◌, not, is_empty, Bool-cases,
}
use gmv_pjsip.Transport.{udp, tcp, tls}
use gmv_pjsip.Runtime.Checks.{is_tcp}
use gmv_pjsip.Runtime.State.{RuntimeIoCommand, receive, send_done, transport_closed}
use gmv_pjsip.Io.Transmit.{Tasks, push_command}
use gmv_pjsip.Io.Connections.{StreamTask}

-- A message of the association, or its end.
abbrev pub concerns : ℕ → RuntimeIoCommand → Bool
concerns i (receive k p l r d) = k == i
concerns i (send_done n r) = false
concerns i (transport_closed k p l r s) = k == i

abbrev pub closes : ℕ → RuntimeIoCommand → Bool
closes i (receive k p l r d) = false
closes i (send_done n r) = false
closes i (transport_closed k p l r s) = k == i

-- Behind the end of an association there is nothing more of it.
abbrev pub Ordered : List RuntimeIoCommand → Type 0
Ordered [] = Unit
Ordered (c ∷ cs) = ((i : ℕ) → closes i c ≡ true → any (concerns i) cs ≡ false) × Ordered cs

module _ {ℓ} {A : Type ℓ} where
  any-snoc : (p : A → Bool) (xs : List A) (x : A) → any p (xs ++ (x ∷ [])) ≡ any p xs || p x
  any-snoc p [] x = ground arith
  any-snoc p (y ∷ xs) x = ground (arith, any-snoc p xs x)

Ordered-snoc :
    (cs : List RuntimeIoCommand) (c : RuntimeIoCommand)
    → Ordered cs
    → ((i : ℕ) → concerns i c ≡ true → any (closes i) cs ≡ false)
    → Ordered (cs ++ (c ∷ []))
Ordered-snoc [] c o h = ((λ i e. refl), tt)
Ordered-snoc (d ∷ cs) c o h = (
  (λ i e. rw (any-snoc (concerns i) cs c) (ground (arith, o.0 i e, h i))),
  Ordered-snoc cs c o.1 (λ i e. ground (arith, h i e)),
)

-- A packet is not empty, or came on a stream; what concerns a stream has an association.
abbrev pub sound : RuntimeIoCommand → Bool
sound (receive k udp l r d) = k == 0 && not (is_empty d)
sound (receive k tcp l r d) = not (k == 0)
sound (receive k tls l r d) = false
sound (send_done n r) = true
sound (transport_closed k p l r s) = is_tcp p && not (k == 0)

all-snoc :
    {A : Type 0} (p : A → Bool) (xs : List A) (x : A)
    → all p xs ≡ true
    → p x ≡ true
    → all p (xs ++ (x ∷ [])) ≡ true
all-snoc p [] x h e = ground arith
all-snoc p (y ∷ xs) x h e = ground (arith, all-snoc p xs x)

-- What was queued, against the counter and the tasks of streams that have not ended.
pub record History (counter : ℕ) (live : ℕ → Option StreamTask) (log : List RuntimeIoCommand)
    : Type 0 where
  pub open_below : (i : ℕ) (c : StreamTask) → live i ≡ some c → (0 < i) × (i < counter)
  pub ended : (i : ℕ) → any (closes i) log ≡ true → (0 < i) × (i < counter) × (live i ≡ none)
  pub order : Ordered log
  pub all_sound : all sound log ≡ true

module _ {counter : ℕ} {live : ℕ → Option StreamTask} {log : List RuntimeIoCommand} where
  pub History-snoc :
      (live' : ℕ → Option StreamTask) (c : RuntimeIoCommand)
      → History counter live log
      → ((j : ℕ) (d : StreamTask) → live' j ≡ some d → (0 < j) × (j < counter))
      → ((j : ℕ) → live j ≡ none → live' j ≡ none)
      → sound c ≡ true
      → ((j : ℕ) → concerns j c ≡ true → any (closes j) log ≡ false)
      → ((j : ℕ) → closes j c ≡ true → (0 < j) × (j < counter) × (live' j ≡ none))
      → History counter live' (log ++ (c ∷ []))
  History-snoc live' c h open' gone s fresh final = record {
    open_below = open';
    ended = λ j e.
        let o : any (closes j) log || closes j c ≡ true = rw (← any-snoc (closes j) log c) e in
        elim (Bool-cases (any (closes j) log)) [
          | inl y ↦ let (p, q, n) = h.ended j y in (p, q, gone j n)
          | inr m ↦ final j (ground arith)
        ];
    order = Ordered-snoc log c h.order fresh;
    all_sound = all-snoc sound log c h.all_sound s;
  }

  pub History-live :
      (live' : ℕ → Option StreamTask)
      → History counter live log
      → ((j : ℕ) (d : StreamTask) → live' j ≡ some d → (0 < j) × (j < counter))
      → ((j : ℕ) → live j ≡ none → live' j ≡ none)
      → History counter live' log
  History-live live' h open' gone = record {
    open_below = open';
    ended = λ j e. let (p, q, n) = h.ended j e in (p, q, gone j n);
    order = h.order;
    all_sound = h.all_sound;
  }

  -- An association that is still read, and UDP, have no end in the history.
  pub live-closes :
      (i : ℕ) (c : StreamTask)
      → History counter live log
      → live i ≡ some c
      → any (closes i) log ≡ false
  live-closes i c h e = elim (Bool-cases (any (closes i) log)) [
    | inl y ↦ let (p, q, n) = h.ended i y in absurd (ground arith)
    | inr m ↦ m
  ]

  pub udp-closes : History counter live log → any (closes 0) log ≡ false
  udp-closes h = elim (Bool-cases (any (closes 0) log)) [
    | inl y ↦ let (p, q, n) = h.ended 0 y in absurd (omega arith)
    | inr m ↦ m
  ]

-- A command is queued, or dropped where the queue is full.
pub push-queued :
    (P : List RuntimeIoCommand → Type 0) (taken : List RuntimeIoCommand) (c : RuntimeIoCommand)
    (t : Tasks)
    → P (taken ++ t.commands)
    → P ((taken ++ t.commands) ++ (c ∷ []))
    → P (taken ++ (push_command c t).commands)
unfolding push_command
push-queued P taken c t same more = elim (Bool-cases (ltb (length t.commands) t.capacity)) [
  | inl y ↦ rw (y, push_command) (rw (← append_assoc taken t.commands (c ∷ [])) more)
  | inr m ↦ rw (m, push_command) same
]
