-- ===== src/Pick/Sent.antt =====
-- What is sent when copy edits are saved.
use ar_automation_agent.Prelude.{
  ℕ, ◌≡◌, ◌≢◌, ◌⊎◌, refl, sym, ap, subst, ◌∙◌, Bool, true, false, Option, none, some, List, [], ◌∷◌,
  All, Bool-cases, inl, inr, keep, some_of, ◌==◌, arith,
}
use ar_automation_agent.Prelude.Text.{
  Text, text_eq, text_eq_refl, eq_of_text_eq, is_set, trim, IsFree,
}
use ar_automation_agent.Pick.State.{El, Row}
use ar_automation_agent.Pick.Save.{
  Op, Save, busy, unchanged, empty_text, forbidden, stashes, forbidden_chars,
  forbidden_manual_text_chars, draft_of, if_changed, change_of, add_op, check_change, save_rows,
}

-- More than white space, and none of the characters that would be markup: `<`, `{`, `}` and the
-- backtick.
abbrev pub IsSendable : Op → Type 0
IsSendable o =
    (is_set (trim o.new_text) ≡ true)
    × (IsFree 60 o.new_text × IsFree 123 o.new_text × IsFree 125 o.new_text × IsFree 96 o.new_text)

-- The text is the first that the drafts have for the element.
abbrev pub IsDraft : El → Text → List (El × Text) → Type 0
IsDraft e t [] = ⊥
IsDraft e t (d ∷ ds) = ((d.0 ≡ e) × (d.1 ≡ t)) ⊎ ((d.0 ≢ e) × IsDraft e t ds)

-- The operation puts the draft of the row in place of the text of the row, which is another one.
abbrev pub Replaces : List (El × Text) → Row → Op → Type 0
Replaces drafts r op =
    (op.el ≡ r.el)
    × (op.original_text ≡ r.text)
    × IsDraft r.el op.new_text drafts
    × (op.new_text ≢ r.text)

-- The operations are those of the rows with a draft that differs, in the order of the rows; the other
-- rows have none.
abbrev pub AreChanges : List (El × Text) → List Row → List Op → Type 0
AreChanges drafts [] ops = ops ≡ []
AreChanges drafts (r ∷ rs) ops =
    (((t : Text) → IsDraft r.el t drafts → t ≡ r.text) × AreChanges drafts rs ops)
    ⊎ ((op : Op) × (rest : List Op) × (ops ≡ op ∷ rest)
        × Replaces drafts r op
        × AreChanges drafts rs rest)

abbrev op_of : Row → Option Text → List Op → List Op
op_of r none ops = ops
op_of r (some t) ops = record { el = r.el; original_text = r.text; new_text = t } ∷ ops

abbrev changes : List (El × Text) → List Row → List Op
changes drafts [] = []
changes drafts (r ∷ rs) = op_of r (change_of drafts r) (changes drafts rs)

-- What a save is where it sends the operations `ops`, or has none to send.
abbrev IsSave : List Op → Save → Type 0
IsSave ops unchanged = ops ≡ []
IsSave ops (stashes sent) = (sent ≡ ops) × All IsSendable ops
IsSave ops s = Unit

abbrev sent_op : Row → Text → Op
sent_op r t = record { el = r.el; original_text = r.text; new_text = t }

keep-skip :
    (f : ℕ → Bool) (x : ℕ) (xs : List ℕ) → keep f (x ∷ xs) ≡ [] → (f x ≡ false) × (keep f xs ≡ [])
keep-skip f x xs h = ground arith

keep-All : (f : ℕ → Bool) (xs : List ℕ) → keep f xs ≡ [] → All (λ x. f x ≡ false) xs
keep-All f [] h = tt
keep-All f (x ∷ xs) h = let (e, rest) = keep-skip f x xs h in (e, keep-All f xs rest)

text_eq-distinct : (a b : Text) → text_eq a b ≡ false → a ≢ b
text_eq-distinct a b h e = let same = text_eq_refl a in cc

draft_of-IsDraft :
    (e : El) (t : Text) (ds : List (El × Text)) → draft_of e ds ≡ some t → IsDraft e t ds
draft_of-IsDraft e t [] h = cc
draft_of-IsDraft e t (d ∷ ds) h = elim (Bool-cases (d.0 == e)) [
  | inl same ↦ inl (ground arith, ground (arith, same))
  | inr other ↦ inr ((λ same. ground arith), draft_of-IsDraft e t ds (ground (arith, other)))
]

IsDraft-draft_of :
    (e : El) (t : Text) (ds : List (El × Text)) → IsDraft e t ds → draft_of e ds ≡ some t
IsDraft-draft_of e t [] h = absurd h
IsDraft-draft_of e t (d ∷ ds) (inl (same, at)) = ground arith
IsDraft-draft_of e t (d ∷ ds) (inr (other, later)) =
    let rest = IsDraft-draft_of e t ds later in ground arith

op_of-AreChanges :
    (drafts : List (El × Text)) (r : Row) (rs : List Row) (ops : List Op) (o : Option Text)
    → draft_of r.el drafts ≡ o
    → AreChanges drafts rs ops
    → AreChanges drafts (r ∷ rs) (op_of r (if_changed r o) ops)
op_of-AreChanges drafts r rs ops none e h =
    inl (λ t d. let found = IsDraft-draft_of r.el t drafts d in cc, h)
op_of-AreChanges drafts r rs ops (some t) e h = elim (Bool-cases (text_eq t r.text)) [
  | inl same ↦ rw same (
      inl (
        λ u d.
            let found = IsDraft-draft_of r.el u drafts d in
            let at = eq_of_text_eq t r.text same in cc,
        h,
      ))
  | inr other ↦ rw other (
      inr (
        sent_op r t,
        ops,
        refl,
        (refl, refl, draft_of-IsDraft r.el t drafts e, text_eq-distinct t r.text other),
        h,
      ))
]

changes-AreChanges :
    (drafts : List (El × Text)) (rs : List Row) → AreChanges drafts rs (changes drafts rs)
changes-AreChanges drafts [] = refl
changes-AreChanges drafts (r ∷ rs) =
    op_of-AreChanges drafts r rs (changes drafts rs) (draft_of r.el drafts) refl
      (changes-AreChanges drafts rs)

forbidden_manual_text_chars-IsFree :
    (t : Text)
    → forbidden_manual_text_chars t ≡ []
    → IsFree 60 t × IsFree 123 t × IsFree 125 t × IsFree 96 t
unfolding forbidden_manual_text_chars
forbidden_manual_text_chars-IsFree t h =
    let (a, (b, (c, (d, _)))) = keep-All (λ c. some_of (λ d. d == c) t) forbidden_chars h in
    (a, b, c, d)

checked :
    (r : Row) (t : Text) (ops : List Op) (rest : Save) (bad : List ℕ)
    → forbidden_manual_text_chars t ≡ bad
    → is_set (trim t) ≡ true
    → IsSave ops rest
    → IsSave (op_of r (some t) ops) (elim bad [
      | [] ↦ add_op (record { el = r.el; original_text = r.text; new_text = t }) rest
      | c ∷ cs ↦ forbidden (c ∷ cs)
    ])
checked r t ops (stashes sent) [] b set (h, hs) =
    let free = forbidden_manual_text_chars-IsFree t b in
    (ap (λ z. sent_op r t ∷ z) h, ((set, free), hs))
checked r t ops unchanged [] b set h =
    let free = forbidden_manual_text_chars-IsFree t b in
    (ap (λ z. sent_op r t ∷ z) (sym h), ((set, free), rw h tt))
checked r t ops busy [] b set h = tt
checked r t ops empty_text [] b set h = tt
checked r t ops (forbidden cs) [] b set h = tt
checked r t ops rest (c ∷ cs) b set h = tt

check-IsSave :
    (r : Row) (o : Option Text) (ops : List Op) (rest : Save)
    → IsSave ops rest
    → IsSave (op_of r o ops) (check_change r o rest)
check-IsSave r none ops rest h = h
check-IsSave r (some t) ops rest h = elim (Bool-cases (is_set (trim t))) [
  | inl set ↦ rw set (checked r t ops rest (forbidden_manual_text_chars t) refl set h)
  | inr blank ↦ rw blank tt
]

rows-IsSave :
    (drafts : List (El × Text)) (rs : List Row) → IsSave (changes drafts rs) (save_rows drafts rs)
unfolding save_rows
rows-IsSave drafts [] = refl
rows-IsSave drafts (r ∷ rs) =
    check-IsSave r (change_of drafts r) (changes drafts rs) (save_rows drafts rs)
      (rows-IsSave drafts rs)

sent :
    (ops os : List Op) (s : Save) → s ≡ stashes os → IsSave ops s → (os ≡ ops) × All IsSendable ops
sent ops os (stashes us) e (h, hs) = let same : us ≡ os = cc in (sym same ∙ h, hs)
sent ops os busy e h = cc
sent ops os unchanged e h = cc
sent ops os empty_text e h = cc
sent ops os (forbidden cs) e h = cc

-- Where a save sends operations, they are those of the rows that have a draft which differs from their
-- text, one for each and in the order of the page, each with both texts; and every text that is sent
-- has more than white space in it and none of the characters `<`, `{`, `}` and the backtick.
pub save_rows-AreChanges :
    (drafts : List (El × Text)) (rs : List Row) (ops : List Op)
    → save_rows drafts rs ≡ stashes ops
    → AreChanges drafts rs ops × All IsSendable ops
save_rows-AreChanges drafts rs ops e =
    let (same, sendable) = sent _ ops _ e (rows-IsSave drafts rs) in
    (
      subst (AreChanges drafts rs) (sym same) (changes-AreChanges drafts rs),
      subst (All IsSendable) (sym same) sendable,
    )
