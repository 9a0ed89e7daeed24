-- ===== src/Notification/Preferences/Laws.antt =====
-- Saving the changes of a draft.
use g_manager.Common.{
  String, Bool, true, false, Option, some, List, [], ◌∷◌, map, ◌≡◌, inl, inr, refl, sym, subst, ap,
  ◌∙◌, arith, ◌===◌, ===_refl, eq_iff, if◌then◌else◌, filter, All, All-map, All-filter, Pairwise,
  Dict, lookup, insert, lookup-insert, Bool-cases,
}
use mathlib.Core.Path.{ap₂}
use g_manager.Notification.Preferences.{
  NotificationPreference, by_type, is_changed, changed_preferences, confirmed_or, merge_preferences,
}

abbrev pub Other : NotificationPreference → NotificationPreference → Type 0
Other a b = (a.type_name === b.type_name) ≡ false

-- No two preferences are of the same type.
abbrev pub AreDistinct : List NotificationPreference → Type 0
AreDistinct = Pairwise Other

lookup-by_type_missing :
    (a : NotificationPreference) (xs : List NotificationPreference)
    (m : Dict NotificationPreference)
    → All (Other a) xs
    → lookup a.type_name (by_type xs m) ≡ lookup a.type_name m
lookup-by_type_missing a [] m h = refl
lookup-by_type_missing a (x ∷ xs) m h =
    lookup-by_type_missing a xs (insert x.type_name x m) h.1
    ∙ ground (
      arith,
      lookup-insert x.type_name a.type_name x m,
      eq_iff a.type_name x.type_name,
      eq_iff x.type_name a.type_name,
      h.0,
    )

-- What the map over the selected preferences holds for each of the given ones.
abbrev selected :
    (NotificationPreference → Bool)
    → Dict NotificationPreference
    → NotificationPreference
    → Option NotificationPreference
selected p m x = if p x then some x else lookup x.type_name m

abbrev Reads :
    (NotificationPreference → Bool)
    → Dict NotificationPreference
    → Dict NotificationPreference
    → List NotificationPreference
    → Type 0
Reads p m r xs = All (λ x. lookup x.type_name r ≡ selected p m x) xs

filter_keeps :
    (p : NotificationPreference → Bool) (x : NotificationPreference)
    (xs : List NotificationPreference)
    → p x ≡ true
    → filter p (x ∷ xs) ≡ x ∷ filter p xs
filter_keeps p x xs e = rw e refl

filter_drops :
    (p : NotificationPreference → Bool) (x : NotificationPreference)
    (xs : List NotificationPreference)
    → p x ≡ false
    → filter p (x ∷ xs) ≡ filter p xs
filter_drops p x xs e = rw e refl

-- Writing under one type does not change what is read under the others.
Reads-insert :
    (p : NotificationPreference → Bool) (m r : Dict NotificationPreference)
    (x : NotificationPreference) (xs : List NotificationPreference)
    → All (Other x) xs
    → Reads p (insert x.type_name x m) r xs
    → Reads p m r xs
Reads-insert p m r x [] o h = tt
Reads-insert p m r x (y ∷ ys) o h = (
  h.0 ∙ ground (arith, lookup-insert x.type_name y.type_name x m, o.0),
  Reads-insert p m r x ys o.1 h.1,
)

lookup-insert_same :
    (x : NotificationPreference) (m : Dict NotificationPreference)
    → lookup x.type_name (insert x.type_name x m) ≡ some x
lookup-insert_same x m =
    ground (arith, lookup-insert x.type_name x.type_name x m, ===_refl x.type_name)

Reads-by_type :
    (p : NotificationPreference → Bool) (xs : List NotificationPreference)
    (m : Dict NotificationPreference)
    → AreDistinct xs
    → Reads p m (by_type (filter p xs) m) xs
Reads-by_type p [] m h = tt
Reads-by_type p (x ∷ xs) m h =
    let others = All-filter (Other x) p xs h.0 in
    elim (Bool-cases (p x)) [
      | inl e ↦
          subst (λ ys. Reads p m (by_type ys m) (x ∷ xs)) (sym (filter_keeps p x xs e))
            (
              lookup-by_type_missing x (filter p xs) (insert x.type_name x m) others
                  ∙ (lookup-insert_same x m ∙ rw e refl),
              Reads-insert p m (by_type (filter p xs) (insert x.type_name x m)) x xs h.0
                  (Reads-by_type p xs (insert x.type_name x m) h.1),
            )
      | inr e ↦
          subst (λ ys. Reads p m (by_type ys m) (x ∷ xs)) (sym (filter_drops p x xs e))
            (lookup-by_type_missing x (filter p xs) m others ∙ rw e refl, Reads-by_type p xs m h.1)
    ]

filter_all : (xs : List NotificationPreference) → filter (λ x. true) xs ≡ xs
filter_all [] = refl
filter_all (x ∷ xs) = ap (λ ys. x ∷ ys) (filter_all xs)

abbrev Holds : Dict NotificationPreference → List NotificationPreference → Type 0
Holds m xs = All (λ x. lookup x.type_name m ≡ some x) xs

by_type-Holds : (xs : List NotificationPreference) → AreDistinct xs → Holds (by_type xs []) xs
by_type-Holds xs h =
    All-map (λ x. lookup x.type_name (by_type xs []) ≡ selected (λ y. true) [] x)
      (λ x. lookup x.type_name (by_type xs []) ≡ some x) (λ x e. e) xs
      (subst (λ ys. All (λ x. lookup x.type_name (by_type ys []) ≡ selected (λ y. true) [] x) xs)
        (filter_all xs) (Reads-by_type (λ y. true) xs [] h))

-- What the page lets a user do to one preference: a mandatory one stays as it is.
abbrev pub IsEdit : NotificationPreference → NotificationPreference → Type 0
IsEdit s d =
    (d.type_name ≡ s.type_name)
    × (d.mandatory ≡ s.mandatory)
    × ((s.mandatory ≡ true)
        → (d.in_app_enabled ≡ s.in_app_enabled) × (d.email_enabled ≡ s.email_enabled))

abbrev pub AreEdits : List NotificationPreference → List NotificationPreference → Type 0
AreEdits [] [] = Unit
AreEdits (s ∷ ss) (d ∷ ds) = IsEdit s d × AreEdits ss ds
AreEdits _ _ = ⊥

confirmed_or_edit :
    (b r : Dict NotificationPreference) (t : String) (m i e i' e' : Bool)
    → let s : NotificationPreference = record {
      type_name = t;
      mandatory = m;
      in_app_enabled = i;
      email_enabled = e;
    } in
      let d : NotificationPreference = record {
        type_name = t;
        mandatory = m;
        in_app_enabled = i';
        email_enabled = e';
      } in
      lookup t b ≡ some s
      → lookup t r ≡ selected (is_changed b) [] d
      → ((m ≡ true) → (i' ≡ i) × (e' ≡ e))
      → confirmed_or r s ≡ d
unfolding lookup
confirmed_or_edit b r t m i e i' e' hb hr hm = rw (confirmed_or, hr, is_changed, hb) (ground arith)

confirmed_or-IsEdit :
    (b r : Dict NotificationPreference) (s d : NotificationPreference)
    → lookup s.type_name b ≡ some s
    → lookup d.type_name r ≡ selected (is_changed b) [] d
    → IsEdit s d
    → confirmed_or r s ≡ d
confirmed_or-IsEdit b r s d hb hr (t, m, e) =
    let d' : NotificationPreference = record d {
      type_name = s.type_name;
      mandatory = s.mandatory;
    } in
    let q : d ≡ d' = λ i. record d { type_name = t i; mandatory = m i } in
    confirmed_or_edit b r s.type_name s.mandatory s.in_app_enabled s.email_enabled d.in_app_enabled
      d.email_enabled hb (ap (λ k. lookup k r) (sym t) ∙ (hr ∙ ap (selected (is_changed b) []) q)) e
    ∙ sym q

map-confirmed_or :
    (b r : Dict NotificationPreference) (ss ds : List NotificationPreference)
    → Holds b ss
    → Reads (is_changed b) [] r ds
    → AreEdits ss ds
    → map (confirmed_or r) ss ≡ ds
map-confirmed_or b r [] [] hb hr h = refl
map-confirmed_or b r [] (d ∷ ds) hb hr h = absurd h
map-confirmed_or b r (s ∷ ss) [] hb hr h = absurd h
map-confirmed_or b r (s ∷ ss) (d ∷ ds) hb hr h =
    ap₂ (λ x xs. x ∷ xs) (confirmed_or-IsEdit b r s d hb.0 hr.0 h.0)
      (map-confirmed_or b r ss ds hb.1 hr.1 h.1)

-- Saving a draft: when the server confirms exactly the changed preferences, merging them into what was
-- saved gives the draft. The draft may differ from what was saved in the channels of preferences that
-- are not mandatory, and no two preferences are of the same type.
pub merge_preferences-changed_preferences :
    (saved draft : List NotificationPreference)
    → AreDistinct saved
    → AreDistinct draft
    → AreEdits saved draft
    → merge_preferences saved (changed_preferences saved draft) ≡ draft
unfolding merge_preferences changed_preferences
merge_preferences-changed_preferences saved draft hs hd h =
    let b = by_type saved [] in
    map-confirmed_or b (by_type (filter (is_changed b) draft) []) saved draft
      (by_type-Holds saved hs) (Reads-by_type (is_changed b) draft [] hd) h
