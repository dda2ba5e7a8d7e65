-- ===== src/Kernel/Validity.antt =====
-- What `validate_transaction` of src/kernel/mod.rs accepts.
use btck_rust_node.Common.{
  ℕ, ◌+◌, ◌≤◌, ◌≡◌, ◌↔◌, ◌⊎◌, inl, inr, refl, sym, ap, subst, true, false, none, some, List, [],
  ◌∷◌, map, Result, ok, err, HashSet, contains, add, lookup, lookup-insert, Has, All, total, arith,
  Option-cases,
}
use btck_rust_node.Chain.{OutPoint, outpoint_key, TxIn, Transaction}
use btck_rust_node.Kernel.{
  Verdict, max_money, sum_outputs, repeats_prevout, check_total, is_empty, validate_transaction,
}

abbrev prevouts_of : List TxIn → List OutPoint
prevouts_of = map (λ (i : TxIn). i.previous_output)

-- No outpoint stands twice.
abbrev Differ : List OutPoint → Type 0
Differ [] = Unit
Differ (o ∷ os) = (Has o os → ⊥) × Differ os

abbrev sum : List ℕ → ℕ
sum = total (λ v. v)

contains-add :
    (o i : OutPoint) (seen : HashSet OutPoint)
    → (contains o (add i seen) ≡ false) ↔ ((contains o seen ≡ false) × (i ≡ o → ⊥))
contains-add o i seen = (
  (λ h. ground (arith, lookup-insert i o tt seen)),
  (λ h. ground (arith, lookup-insert i o tt seen)),
)

repeats_prevout-eq-false_iff :
    (ins : List TxIn) (seen : HashSet OutPoint)
    → (repeats_prevout seen ins ≡ false) ↔ (
        ((o : OutPoint) → Has o (prevouts_of ins) → contains o seen ≡ false)
        × Differ (prevouts_of ins))
unfolding repeats_prevout
repeats_prevout-eq-false_iff [] seen = ((λ h. ((λ o q. absurd q), tt)), (λ h. refl))
repeats_prevout-eq-false_iff (i ∷ ins) seen =
    let p = i.previous_output in
    let ih = repeats_prevout-eq-false_iff ins (add p seen) in
    (
      (λ h.
          let first : contains p seen ≡ false = ground arith in
          let later : repeats_prevout (add p seen) ins ≡ false = ground arith in
          let known = ih.0 later in
          (
            (λ o q. elim q [
              | inl e ↦ subst (λ x. contains x seen ≡ false) e first
              | inr r ↦ ((contains-add o p seen).0 (known.0 o r)).0
            ]),
            ((λ r. ((contains-add p p seen).0 (known.0 p r)).1 refl), known.1),
          )),
      λ h.
          let first : contains p seen ≡ false = h.0 p (inl refl) in
          let later : repeats_prevout (add p seen) ins ≡ false = ih.1 (
            (λ o r.
                (contains-add o p seen).1
                  (h.0 o (inr r), λ e. h.1.0 (subst (λ x. Has x (prevouts_of ins)) (sym e) r))),
            h.1.1,
          ) in
          ground arith,
    )

sum_outputs-ok :
    (outs : List ℕ) (start s : ℕ)
    → sum_outputs start outs ≡ ok s
    → All (λ v. v ≤ max_money) outs × (s ≡ start + sum outs)
unfolding sum_outputs
sum_outputs-ok [] start s h = ground arith
sum_outputs-ok (v ∷ outs) start s h = ground (arith, sum_outputs-ok outs (start + v) s)

sum_outputs-of_le :
    (outs : List ℕ) (start : ℕ)
    → start + sum outs ≤ max_money
    → sum_outputs start outs ≡ ok (start + sum outs)
unfolding sum_outputs
sum_outputs-of_le [] start h = ap ok (omega arith)
sum_outputs-of_le (v ∷ outs) start h = ground (arith, sum_outputs-of_le outs (start + v))

-- What a transaction is checked for: it encodes to 60 bytes or more, has inputs and outputs, no
-- output and no sum of outputs is above the money supply, and no outpoint is spent twice.
pub record IsValid (tx : Transaction) : Type 0 where
  pub encodes : (n : ℕ) × (tx.encoded_len ≡ some n) × (60 ≤ n)
  pub inputs : is_empty tx.input ≡ false
  pub outputs : is_empty tx.output ≡ false
  pub values : All (λ v. v ≤ max_money) tx.output
  pub supply : sum tx.output ≤ max_money
  pub differ : Differ (prevouts_of tx.input)

seen_none : (ins : List TxIn) (o : OutPoint) → Has o (prevouts_of ins) → contains o [] ≡ false
unfolding lookup
seen_none ins o q = refl

check_total-ok :
    (tx : Transaction) (r : Result Verdict ℕ)
    → check_total tx r ≡ ok (true, none)
    → (r ≡ err (ok (true, none)))
      ⊎ ((s : ℕ) × (r ≡ ok s) × (s ≤ max_money) × (repeats_prevout [] tx.input ≡ false))
unfolding check_total
check_total-ok tx (err v) h = inl (ap err h)
check_total-ok tx (ok s) h = inr (s, refl, ground arith, ground arith)

sum_outputs-not_valid :
    (outs : List ℕ) (start : ℕ) → sum_outputs start outs ≡ err (ok (true, none)) → ⊥
unfolding sum_outputs
sum_outputs-not_valid [] start h = ground arith
sum_outputs-not_valid (v ∷ outs) start h = ground (arith, sum_outputs-not_valid outs (start + v))

validate_transaction-IsValid :
    (tx : Transaction) → validate_transaction tx ≡ ok (true, none) → IsValid tx
unfolding validate_transaction
validate_transaction-IsValid tx h = elim (Option-cases tx.encoded_len) [
  | inl a ↦ absurd (ground arith)
  | inr (n, a) ↦
      let long : 60 ≤ n = ground arith in
      let ins : is_empty tx.input ≡ false = ground arith in
      let outs : is_empty tx.output ≡ false = ground arith in
      let rest : check_total tx (sum_outputs 0 tx.output) ≡ ok (true, none) = ground arith in
      elim (check_total-ok tx (sum_outputs 0 tx.output) rest) [
        | inl b ↦ absurd (sum_outputs-not_valid tx.output 0 b)
        | inr (s, b, c, d) ↦
            let summed = sum_outputs-ok tx.output 0 s b in
            record {
              encodes = (n, a, long);
              inputs = ins;
              outputs = outs;
              values = summed.0;
              supply = omega (arith, summed.1);
              differ = ((repeats_prevout-eq-false_iff tx.input []).0 d).1;
            }
      ]
]

IsValid-validate_transaction :
    (tx : Transaction) → IsValid tx → validate_transaction tx ≡ ok (true, none)
unfolding validate_transaction check_total
IsValid-validate_transaction tx v =
    let summed = sum_outputs-of_le tx.output 0 (omega (arith, v.supply)) in
    let once = (repeats_prevout-eq-false_iff tx.input []).1 (seen_none tx.input, v.differ) in
    let n = v.encodes.0 in
    let a = v.encodes.1 in let long = v.encodes.2 in ground (arith, v.inputs, v.outputs, v.supply)

-- `validate_transaction` accepts exactly the transactions that encode to 60 bytes or more, have
-- inputs and outputs, with no output and no sum of outputs above the money supply, and that spend
-- no outpoint twice.
pub validate_transaction_iff :
    (tx : Transaction) → (validate_transaction tx ≡ ok (true, none)) ↔ IsValid tx
validate_transaction_iff tx = (validate_transaction-IsValid tx, IsValid-validate_transaction tx)
