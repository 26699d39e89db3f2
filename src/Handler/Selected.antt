-- ===== src/Handler/Selected.antt =====
-- The selection of trusted comments in scripts/actions_request_handler.py against a description of it,
-- and the receipts that the loops find.
use mathlib.Core.Path.{subst}
use mathlib.Core.List.{Memᴰ}
use zach.Common.{
  ℕ, ◌≡◌, refl, sym, ap, Bool, true, false, Option, none, some, List, [], ◌∷◌, if◌then◌else◌,
}
use zach.Python.Value.{Value, get}
use zach.Action.{Result, ok, bind}
use zach.Action.Checks.{after_bind}
use zach.Handler.Bundle.{TrustedReceiptPolicy}
use zach.Handler.Comment.{Issue, is_trusted_comment_author}
use zach.Handler.Trusted.{Match, with_parsed, matching}

pub ok-same : {A : Type 0} {a b : A} → ok a ≡ ok b → a ≡ b
ok-same h = cc

module _ (policy : TrustedReceiptPolicy) (issue : Issue)
    (parse : Value → Result (Option Value)) where
  -- The match of a trusted comment of the list, with what its body parses to.
  pub record IsMatch (comments : List (ℕ × Value)) (m : Match) : Type 0 where
    pub listed : Memᴰ (m.comment_id, m.comment) comments
    pub trusted : is_trusted_comment_author m.comment policy issue ≡ true
    pub parsed : parse (get "body" m.comment) ≡ ok (some m.envelope)

  -- The selection has all matches and nothing else.
  pub record IsSelection (comments : List (ℕ × Value)) (matches : List Match) : Type 0 where
    pub sound : (m : Match) → Memᴰ m matches → IsMatch comments m
    pub complete : (m : Match) → IsMatch comments m → Memᴰ m matches

  -- A comment that is no match changes nothing.
  passed_over :
      (id : ℕ) (comment : Value) (comments : List (ℕ × Value)) {matches : List Match}
      → ((envelope : Value)
          → is_trusted_comment_author comment policy issue ≡ true
          → parse (get "body" comment) ≡ ok (some envelope)
          → ⊥)
      → IsSelection comments matches
      → IsSelection ((id, comment) ∷ comments) matches
  passed_over id comment comments {matches} never h = record {
    sound = λ m i.
        let k = h.sound m i in
        record { listed = Memᴰ.tail k.listed; trusted = k.trusted; parsed = k.parsed };
    complete = λ m k. further m k k.listed;
  }
    where
      further :
          (m : Match)
          → IsMatch ((id, comment) ∷ comments) m
          → Memᴰ (m.comment_id, m.comment) ((id, comment) ∷ comments)
          → Memᴰ m matches
      further m k (Memᴰ.head e) =
          let same : m.comment ≡ comment = ap (λ (x : ℕ × Value). x.1) e in
          absurd (
            never m.envelope
              (subst (λ c. is_trusted_comment_author c policy issue ≡ true) same k.trusted)
              (subst (λ c. parse (get "body" c) ≡ ok (some m.envelope)) same k.parsed))
      further m k (Memᴰ.tail i) =
          h.complete m (record { listed = i; trusted = k.trusted; parsed = k.parsed })

  -- A match is the first of the selection.
  taken :
      (id : ℕ) (comment : Value) (comments : List (ℕ × Value)) (envelope : Value)
      {matches : List Match}
      → is_trusted_comment_author comment policy issue ≡ true
      → parse (get "body" comment) ≡ ok (some envelope)
      → IsSelection comments matches
      → IsSelection
          ((id, comment) ∷ comments)
          (record { envelope = envelope; comment = comment; comment_id = id } ∷ matches)
  taken id comment comments envelope {matches} trusted parsed h = record {
    sound = λ m i. first m i;
    complete = λ m k. found m k k.listed;
  }
    where
      new : Match
      new = record { envelope = envelope; comment = comment; comment_id = id }

      first : (m : Match) → Memᴰ m (new ∷ matches) → IsMatch ((id, comment) ∷ comments) m
      first m (Memᴰ.head e) =
          subst (IsMatch ((id, comment) ∷ comments)) (sym e)
            (record { listed = Memᴰ.head refl; trusted = trusted; parsed = parsed })
      first m (Memᴰ.tail i) =
          let k = h.sound m i in
          record { listed = Memᴰ.tail k.listed; trusted = k.trusted; parsed = k.parsed }

      found :
          (m : Match)
          → IsMatch ((id, comment) ∷ comments) m
          → Memᴰ (m.comment_id, m.comment) ((id, comment) ∷ comments)
          → Memᴰ m (new ∷ matches)
      found m k (Memᴰ.head e) =
          let number : m.comment_id ≡ id = ap (λ (x : ℕ × Value). x.0) e in
          let same : m.comment ≡ comment = ap (λ (x : ℕ × Value). x.1) e in
          let body : parse (get "body" comment) ≡ ok (some m.envelope) =
            subst (λ c. parse (get "body" c) ≡ ok (some m.envelope)) same k.parsed in
          let envelopes : m.envelope ≡ envelope = cc in
          Memᴰ.head
            (λ i. record { envelope = envelopes i; comment = same i; comment_id = number i })
      found m k (Memᴰ.tail i) =
          Memᴰ.tail (h.complete m (record { listed = i; trusted = k.trusted; parsed = k.parsed }))

  parsed_as :
      (id : ℕ) (comment : Value) (comments : List (ℕ × Value)) (o : Option Value)
      {matches : List Match}
      → is_trusted_comment_author comment policy issue ≡ true
      → parse (get "body" comment) ≡ ok o
      → IsSelection comments matches
      → IsSelection ((id, comment) ∷ comments) (with_parsed o id comment matches)
  parsed_as id comment comments none t e k =
      passed_over id comment comments (λ envelope t' e'. cc) k
  parsed_as id comment comments (some envelope) t e k = taken id comment comments envelope t e k

  -- One round of the loop.
  round :
      (id : ℕ) (comment : Value) (comments : List (ℕ × Value)) (rest : Result (List Match))
      {matches : List Match}
      → ((ms : List Match) → rest ≡ ok ms → IsSelection comments ms)
      → (b : Bool) → is_trusted_comment_author comment policy issue ≡ b
      → (if b
          then bind
              (parse (get "body" comment))
              (λ envelope. bind rest λ ms. ok (with_parsed envelope id comment ms))
          else rest)
        ≡ ok matches
      → IsSelection ((id, comment) ∷ comments) matches
  round id comment comments rest selected true t h = after_bind _ _ h λ o e h₁.
      after_bind _ _ h₁ λ ms e₁ h₂.
        subst (IsSelection ((id, comment) ∷ comments)) (ok-same h₂)
          (parsed_as id comment comments o t e (selected ms e₁))
  round id comment comments rest selected false t h =
      passed_over id comment comments (λ envelope t' e'. cc) (selected _ h)

  -- A selection of trusted comments that ends well has exactly the trusted comments whose body parses to
  -- an envelope.
  pub matching-IsSelection :
      (comments : List (ℕ × Value)) {matches : List Match}
      → matching policy issue parse comments ≡ ok matches
      → IsSelection comments matches
  unfolding matching
  matching-IsSelection [] h =
      subst (IsSelection []) (ok-same h)
        (record { sound = λ m i. elim i [ ]; complete = λ m k. elim k.listed [ ] })
  matching-IsSelection ((id, comment) ∷ comments) h =
      round id comment comments (matching policy issue parse comments)
        (λ ms k. matching-IsSelection comments k) (is_trusted_comment_author comment policy issue)
        refl h
