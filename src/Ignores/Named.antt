-- ===== src/Ignores/Named.antt =====
-- The rules that `ignoreRules` of live-browser-ignores.js names.
use ar_automation_agent.Prelude.{
  ◌≡◌, refl, sym, ap, subst, ◌∙◌, Bool, true, false, ◌&&◌, ◌||◌, Option, none, some, List, [], ◌∷◌,
  ◌++◌, map, keep, some_of, if_cases, if◌then◌else◌,
}
use ar_automation_agent.Prelude.Text.{Text, text_eq, eq_of_text_eq, is_set, trim, lower}
use ar_automation_agent.Ignores.Page.{as_array, strings, add_all, add_new}
use ar_automation_agent.Ignores.Resolve.{Config, normalize_ignore_rule, initial_rules}

abbrev pub is_in : Text → List Text → Bool
is_in x ts = some_of (text_eq x) ts

-- A string of `ignoreRules` that comes to the rule `x` when it is trimmed and put into lower case.
abbrev pub is_named : Text → Option Text → Bool
is_named x none = false
is_named x (some s) = is_set (lower (trim s)) && text_eq x (lower (trim s))

abbrev pub names_rule : Text → Option (List (Option Text)) → Bool
names_rule x none = false
names_rule x (some items) = some_of (is_named x) items

pub or_assoc : (a b c : Bool) → (a || (b || c)) ≡ (a || b || c)
or_assoc true b c = refl
or_assoc false b c = refl

is_in-append : (x : Text) (ts us : List Text) → is_in x (ts ++ us) ≡ (is_in x ts || is_in x us)
is_in-append x [] us = refl
is_in-append x (t ∷ ts) us =
    rw (is_in-append x ts us) (or_assoc (text_eq x t) (is_in x ts) (is_in x us))

pub or_false : (b : Bool) → b ≡ (b || false)
or_false true = refl
or_false false = refl

pub is_in-add_new :
    (x t : Text) (ts : List Text) → is_in x (add_new t ts) ≡ (is_in x ts || text_eq x t)
is_in-add_new x t ts =
    if_cases (λ us. is_in x us ≡ (is_in x ts || text_eq x t)) (is_in t ts) ts (ts ++ t ∷ [])
      (λ there. already (text_eq x t) refl there)
      (λ _. is_in-append x ts (t ∷ []) ∙ ap (λ b. is_in x ts || b) (sym (or_false (text_eq x t))))
  where
    already : (b : Bool) → text_eq x t ≡ b → is_in t ts ≡ true → is_in x ts ≡ (is_in x ts || b)
    already false e there = or_false (is_in x ts)
    already true e there =
        let same : x ≡ t = eq_of_text_eq x t e in
        let here : is_in x ts ≡ true = subst (λ z. is_in z ts ≡ true) (sym same) there in rw (here)

is_in-add_all :
    (x : Text) (ts us : List Text) → is_in x (add_all ts us) ≡ (is_in x us || is_in x ts)
is_in-add_all x [] us = or_false (is_in x us)
is_in-add_all x (t ∷ ts) us =
    is_in-add_all x ts (add_new t us)
    ∙ ap (λ b. b || is_in x ts) (is_in-add_new x t us)
    ∙ sym (or_assoc (is_in x us) (text_eq x t) (is_in x ts))

is_in-keep :
    (x t : Text) (ts : List Text)
    → is_in x (if is_set t then t ∷ ts else ts) ≡ ((is_set t && text_eq x t) || is_in x ts)
is_in-keep x [] ts = refl
is_in-keep x (c ∷ cs) ts = refl

is_in-strings :
    (x : Text) (items : List (Option Text))
    → is_in x (keep is_set (map (λ r. normalize_ignore_rule (some r)) (strings items)))
      ≡ some_of (is_named x) items
unfolding normalize_ignore_rule
is_in-strings x [] = refl
is_in-strings x (none ∷ items) = is_in-strings x items
is_in-strings x (some s ∷ items) =
    is_in-keep x (lower (trim s)) _
    ∙ ap (λ b. (is_set (lower (trim s)) && text_eq x (lower (trim s))) || b) (is_in-strings x items)

pub is_in-initial_rules :
    (x : Text) (c : Config) → is_in x (initial_rules c) ≡ names_rule x c.ignore_rules
unfolding initial_rules
is_in-initial_rules x c =
    is_in-add_all x _ [] ∙ is_in-strings x (as_array c.ignore_rules) ∙ named c.ignore_rules
  where
    named :
        (rules : Option (List (Option Text)))
        → some_of (is_named x) (as_array rules) ≡ names_rule x rules
    named none = refl
    named (some items) = refl
