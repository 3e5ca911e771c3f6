-- ===== src/Gorm/Samples.antt =====
-- A database whose tables have room for one row each, with what the repositories rely on.
use clawvival.Base.{
  ℕ, ◌≤◌, ◌≡◌, ◌≢◌, refl, sym, ap, ◌∙◌, inl, inr, arith, ℤ, pos, eqb_ℤ, String, str_eq, eq_iff,
  Bool, true, false, ◌&&◌, ◌||◌, Bool-cases, Option, none, some, List, [], ◌∷◌, ◌++◌, map,
  if◌then◌else◌,
}
use clawvival.Gorm.Table.{
  Table, Answer, answered, record_not_found, broken, IsTable, count, first_of, changed_where,
}
use clawvival.Gorm.Rows.{AgentStateRow, AgentCredentialRow}
use clawvival.Gorm.Locking.{HoldsStates, eqb_ℤ-ne}
use clawvival.Gorm.Registering.{HoldsCredentials, LeavesRows}

pub record Database : Type 0 where
  pub state : Option AgentStateRow
  pub credential : Option AgentCredentialRow

abbrev rows_of : {Row : Type 0} → Option Row → List Row
rows_of none = []
rows_of (some r) = r ∷ []

-- The rows of a table, and a database in which a table has other rows.
module _ {Row : Type 0} (get : Database → Option Row) (set : Option Row → Database → Database)
    (matches : Row → Row → Bool) where
  abbrev find_one : Row → Option Row → Answer Row
  find_one c none = record_not_found
  find_one c (some r) = if matches c r then answered r else record_not_found

  abbrev create_one : Row → Database → Option Row → Answer Database
  create_one r s none = answered (set (some r) s)
  create_one r s (some q) = broken "duplicate key value"

  abbrev update_one : Row → (Row → Row) → Database → Option Row → Answer (ℕ × Database)
  update_one c f s none = answered (0, s)
  update_one c f s (some r) =
      if matches c r then answered (1, set (some (f r)) s) else answered (0, s)

  abbrev pub one_row : Table Database Row
  one_row = record {
    first = λ c s. find_one c (get s);
    first_where = λ test s. record_not_found;
    find = λ c s. answered (rows_of (get s));
    find_latest = λ c limit s. answered (rows_of (get s));
    create = λ r s. create_one r s (get s);
    create_all = λ rows s. answered s;
    create_or = λ merge r s. answered s;
    updates = λ c f s. update_one c f s (get s);
    first_or_create = λ c f s. answered s;
  }

  -- The database has what was put into it.
  module _ (law : (row : Option Row) (s : Database) → get (set row s) ≡ row) where
    one_row-creates :
        (r : Row) (s t : Database) (old : Option Row)
        → create_one r s old ≡ answered t
        → rows_of (get t) ≡ rows_of old ++ r ∷ []
    one_row-creates r s t none h =
        let same : set (some r) s ≡ t = cc h in
        ap (λ x. rows_of (get x)) (sym same) ∙ ap rows_of (law (some r) s)
    one_row-creates r s t (some q) h = absurd (cc h)

    one_row-updates :
        (c : Row) (f : Row → Row) (n : ℕ) (s t : Database) (old : Option Row)
        → get s ≡ old
        → update_one c f s old ≡ answered (n, t)
        → (n ≡ count (matches c) (rows_of old))
          × (rows_of (get t) ≡ map (changed_where (matches c) f) (rows_of old))
    unfolding count
    one_row-updates c f n s t none e h =
        let same : s ≡ t = cc h in (cc h, ap (λ x. rows_of (get x)) (sym same) ∙ ap rows_of e)
    one_row-updates c f n s t (some r) e h = elim (Bool-cases (matches c r)) [
      | inl hit ↦
          let same : set (some (f r)) s ≡ t = cc (rw hit at h) in
          (
            rw hit (cc (rw hit at h)),
            rw hit (ap (λ x. rows_of (get x)) (sym same) ∙ ap rows_of (law (some (f r)) s)),
          )
      | inr miss ↦
          let same : s ≡ t = cc (rw miss at h) in
          (
            rw miss (cc (rw miss at h)),
            rw miss (ap (λ x. rows_of (get x)) (sym same) ∙ ap rows_of e),
          )
    ]

    find_one-eq : (c : Row) (old : Option Row) → find_one c old ≡ first_of (matches c) (rows_of old)
    unfolding first_of
    find_one-eq c none = refl
    find_one-eq c (some r) = ground arith

    pub one_row-IsTable : IsTable one_row (λ s. rows_of (get s)) matches (λ r. r)
    one_row-IsTable = record {
      first_finds = λ c s. find_one-eq c (get s);
      create_adds = λ r s t h. one_row-creates r s t (get s) h;
      updates_change = λ c f n s t h. one_row-updates c f n s t (get s) refl h;
    }

-- A field of a condition that is not zero has to agree.
abbrev same_text : String → String → Bool
same_text want text = str_eq want "" || str_eq text want

abbrev same_int : ℤ → ℤ → Bool
same_int want n = eqb_ℤ want (pos 0) || eqb_ℤ n want

abbrev pub matches_state : AgentStateRow → AgentStateRow → Bool
matches_state c r = same_text c.agent_id r.agent_id && same_int c.version r.version

abbrev pub matches_credential : AgentCredentialRow → AgentCredentialRow → Bool
matches_credential c r = same_text c.agent_id r.agent_id

abbrev pub states : Table Database AgentStateRow
states = one_row (λ (s : Database). s.state) (λ row s. record s { state = row }) matches_state

abbrev pub credentials : Table Database AgentCredentialRow
credentials =
    one_row (λ (s : Database). s.credential) (λ row s. record s { credential = row })
      matches_credential

abbrev pub state_rows : Database → List AgentStateRow
state_rows s = rows_of s.state

abbrev pub credential_rows : Database → List AgentCredentialRow
credential_rows s = rows_of s.credential

pub states-IsTable : IsTable states state_rows matches_state (λ r. r)
states-IsTable =
    one_row-IsTable (λ (s : Database). s.state) (λ row s. record s { state = row }) matches_state
      (λ row s. refl)

pub credentials-IsTable : IsTable credentials credential_rows matches_credential (λ r. r)
credentials-IsTable =
    one_row-IsTable (λ (s : Database). s.credential) (λ row s. record s { credential = row })
      matches_credential (λ row s. refl)

count-one : {Row : Type 0} (test : Row → Bool) (row : Option Row) → count test (rows_of row) ≤ 1
unfolding count
count-one test none = omega arith
count-one test (some r) = ground arith

unset : (name : String) → name ≢ "" → str_eq name "" ≡ false
unset name h = ground (arith, eq_iff name "")

unset_int : (v : ℤ) → v ≢ pos 0 → eqb_ℤ v (pos 0) ≡ false
unset_int v h = eqb_ℤ-ne v (pos 0) h

and_true : (b : Bool) → (b && true) ≡ b
and_true b = ground arith

pub states-Holds :
    HoldsStates state_rows matches_state
      (λ r. r)
      (λ time. time)
      (λ (r : AgentStateRow). r.updated_at)
states-Holds = record {
  one = λ agent_id s. count-one (λ r. str_eq r.agent_id agent_id) s.state;
  by_agent = λ agent_id r named. rw (unset agent_id named) (and_true (str_eq r.agent_id agent_id));
  by_version = λ agent_id version r named some_version.
      rw (unset agent_id named, unset_int version some_version) refl;
  keyed = λ r. refl;
  versioned = λ r. refl;
  kept = λ r h. refl;
}

pub credentials-Holds : HoldsCredentials credential_rows matches_credential (λ r. r)
credentials-Holds = record {
  one = λ agent_id s. count-one (λ r. str_eq r.agent_id agent_id) s.credential;
  by_agent = λ agent_id r named. rw (unset agent_id named) refl;
  keyed = λ r. refl;
  salted = λ r. refl;
  hashed = λ r. refl;
  status = λ r h. h;
}

abbrev with_state : Option AgentStateRow → Database → Database
with_state row s = record s { state = row }

create-leaves :
    (r : AgentStateRow) (s t : Database) (old : Option AgentStateRow)
    → create_one (λ (x : Database). x.state) with_state matches_state r s old ≡ answered t
    → t.credential ≡ s.credential
create-leaves r s t none h =
    let same : with_state (some r) s ≡ t = cc h in ap (λ (x : Database). x.credential) (sym same)
create-leaves r s t (some q) h = absurd (cc h)

update-leaves :
    (c : AgentStateRow) (f : AgentStateRow → AgentStateRow) (n : ℕ) (s t : Database)
    (old : Option AgentStateRow)
    → update_one (λ (x : Database). x.state) with_state matches_state c f s old ≡ answered (n, t)
    → t.credential ≡ s.credential
update-leaves c f n s t none h =
    let same : s ≡ t = cc h in ap (λ (x : Database). x.credential) (sym same)
update-leaves c f n s t (some r) h = elim (Bool-cases (matches_state c r)) [
  | inl hit ↦
      let same : with_state (some (f r)) s ≡ t = cc (rw hit at h) in
      ap (λ (x : Database). x.credential) (sym same)
  | inr miss ↦
      let same : s ≡ t = cc (rw miss at h) in ap (λ (x : Database). x.credential) (sym same)
]

pub states-LeavesRows : LeavesRows states credential_rows
states-LeavesRows = record {
  created = λ r s t h. ap rows_of (create-leaves r s t s.state h);
  updated = λ c f n s t h. ap rows_of (update-leaves c f n s t s.state h);
}
