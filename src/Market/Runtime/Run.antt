-- ===== src/Market/Runtime/Run.antt =====
-- What an operation on one record of a snapshot keeps, for each of the four kinds of record: a session
-- that has run for the record of an identifier.
use fibernuts.Common.{
  ok, err, String, Option, none, some, List, [], ◌∷◌, ◌++◌, ◌≡◌, ◌≢◌, refl, sym, ◌∙◌, ap, All,
}
use fibernuts.Table.Keys.{Pairs, Differ}
use fibernuts.Market.Types.{Proof, MarketSnapshot}
use fibernuts.Market.Errors.{Failure, Attempt}
use fibernuts.Market.Ports.{MarketContext}
use fibernuts.Market.Runtime.{
  Call, Session, Runtime, return, asked, sends, tries, either, find_by, or_else, replace, commits,
}
use fibernuts.Market.Runtime.Records.{find-replace, find-replace_other, replace-Pairs}
use fibernuts.Market.Runtime.Rules.{Ends, Ends-weaken, either-Ends, asked-Ends, committed-Ends}

-- A kind of record: where a snapshot keeps them, what is the same when they are put anew, the fields
-- that an operation never changes, and which calls that move value a stored record backs, so that
-- they can be made again after a crash.
pub record Kind (R : Type 0) : Type 1 where
  pub id : R → String
  pub Mark : Type 0
  pub mark : R → Mark
  pub records : MarketSnapshot → List R
  pub put : MarketSnapshot → List Proof → List R → MarketSnapshot
  pub Same : MarketSnapshot → MarketSnapshot → Type 0
  pub Backs : R → Call → Type 0
  pub records_put :
      (s : MarketSnapshot) (ps : List Proof) (rs : List R) → records (put s ps rs) ≡ rs
  pub proofs_put : (s : MarketSnapshot) (ps : List Proof) (rs : List R) → (put s ps rs).proofs ≡ ps
  pub same_refl : (s : MarketSnapshot) → Same s s
  pub same_put :
      (a s : MarketSnapshot) (ps : List Proof) (rs : List R) → Same a s → Same a (put s ps rs)

module _ {R : Type 0} (k : Kind R) where
  abbrev pub Backed : String → Call × MarketSnapshot → Type 0
  Backed key (call, snap) = (r : R) × (find_by k.id key (k.records snap) ≡ some r) × k.Backs r call

  -- The other records are as they were, the record of the operation stays stored, with the fields that
  -- never change, identifiers stay distinct, proofs are only added, and the new calls are backed.
  pub record Runs (origin : R) (before after : MarketSnapshot)
      (old new : List (Call × MarketSnapshot)) : Type 0 where
    pub elsewhere : k.Same before after
    pub others :
        (other : String)
        → other ≢ k.id origin
        → find_by k.id other (k.records after) ≡ find_by k.id other (k.records before)
    pub distinct : Pairs (Differ k.id) (k.records before) → Pairs (Differ k.id) (k.records after)
    pub gained : List Proof
    pub proofs : after.proofs ≡ before.proofs ++ gained
    pub made : List (Call × MarketSnapshot)
    pub calls : new ≡ made ++ old
    pub backed : All (Backed (k.id origin)) made
    pub kept : R
    pub kept_found : find_by k.id (k.id origin) (k.records after) ≡ some kept
    pub kept_mark : k.mark kept ≡ k.mark origin

++-nil : {A : Type 0} (xs : List A) → xs ++ [] ≡ xs
++-nil [] = refl
++-nil (x ∷ xs) = ap (λ ys. x ∷ ys) (++-nil xs)

++-assoc : {A : Type 0} (xs ys zs : List A) → (xs ++ ys) ++ zs ≡ xs ++ (ys ++ zs)
++-assoc [] ys zs = refl
++-assoc (x ∷ xs) ys zs = ap (λ us. x ∷ us) (++-assoc xs ys zs)

module _ {R : Type 0} (k : Kind R) (origin : R) (start : Session) where
  abbrev pub Keyed : R → Type 0
  Keyed r = (k.id r ≡ k.id origin) × (k.mark r ≡ k.mark origin)

  abbrev pub Run : Session → Type 0
  Run s = Runs k origin start.snapshot s.snapshot start.calls s.calls

  -- The record is stored as `r`.
  abbrev pub At : R → Session → Type 0
  At r s = Run s × Keyed r × (find_by k.id (k.id origin) (k.records s.snapshot) ≡ some r)

  abbrev pub Good : Attempt R × Session → Type 0
  Good r = Ends At Run r

  pub start-Run : find_by k.id (k.id origin) (k.records start.snapshot) ≡ some origin → Run start
  start-Run found = record {
    elsewhere = k.same_refl start.snapshot;
    others = λ other h. refl;
    distinct = λ h. h;
    gained = [];
    proofs = sym (++-nil start.snapshot.proofs);
    made = [];
    calls = refl;
    backed = tt;
    kept = origin;
    kept_found = found;
    kept_mark = refl;
  }

  abbrev pub put_in : MarketSnapshot → R → Option (List Proof) → MarketSnapshot
  put_in snap next proofs =
      k.put snap (or_else proofs snap.proofs) (replace k.id (k.records snap) next)

  -- A commit of the record, with more proofs or with the same.
  commit-Run :
      (s : Session) (next : R) (proofs : Option (List Proof)) (more : List Proof)
      → Run s
      → Keyed next
      → or_else proofs s.snapshot.proofs ≡ s.snapshot.proofs ++ more
      → At next (record s { snapshot = put_in s.snapshot next proofs })
  commit-Run s next proofs more run same added = (
    record {
      elsewhere = k.same_put start.snapshot s.snapshot _ _ run.elsewhere;
      others = λ other differs.
          ap (find_by k.id other) stored
          ∙ (find-replace_other k.id (k.records s.snapshot) next other (λ e. differs (e ∙ same.0))
              ∙ run.others other differs);
      distinct = λ h. rw stored (replace-Pairs k.id (k.records s.snapshot) next (run.distinct h));
      gained = run.gained ++ more;
      proofs =
          k.proofs_put s.snapshot _ _
          ∙ (added
              ∙ (ap (λ ps. ps ++ more) run.proofs
                  ∙ ++-assoc start.snapshot.proofs run.gained more));
      made = run.made;
      calls = run.calls;
      backed = run.backed;
      kept = next;
      kept_found = found;
      kept_mark = same.1;
    },
    same,
    found,
  )
    where
      stored : k.records (put_in s.snapshot next proofs) ≡ replace k.id (k.records s.snapshot) next
      stored = k.records_put s.snapshot _ _

      found : find_by k.id (k.id origin) (k.records (put_in s.snapshot next proofs)) ≡ some next
      found = rw (stored, ← same.0) (find-replace k.id (k.records s.snapshot) next)

  -- A call that the stored record backs.
  pub sends-Ends :
      {A : Type 0} (r : R) (call : Call) (answer : Attempt A) (s : Session)
      → At r s
      → k.Backs r call
      → Ends (λ a t. At r t) (At r) (sends call answer s)
  sends-Ends {A} r call answer s at backs = sent answer
    where
      run : Runs k origin start.snapshot s.snapshot start.calls ((call, s.snapshot) ∷ s.calls)
      run = record {
        elsewhere = at.0.elsewhere;
        others = at.0.others;
        distinct = at.0.distinct;
        gained = at.0.gained;
        proofs = at.0.proofs;
        made = (call, s.snapshot) ∷ at.0.made;
        calls = rw at.0.calls refl;
        backed = ((r, at.2, backs), at.0.backed);
        kept = at.0.kept;
        kept_found = at.0.kept_found;
        kept_mark = at.0.kept_mark;
      }

      sent : (answer' : Attempt A) → Ends (λ a t. At r t) (At r) (sends call answer' s)
      sent (ok a) = (run, at.1, at.2)
      sent (err e) = (run, at.1, at.2)

  module _ (c : MarketContext) where
    -- A commit returns the record that it was given, which is then stored.
    pub commit_exact-Ends :
        (current next : R) (proofs : Option (List Proof)) (more : List Proof) (s : Session)
        → At current s
        → Keyed next
        → or_else proofs s.snapshot.proofs ≡ s.snapshot.proofs ++ more
        → Ends
            (λ r t. At r t × (r ≡ next))
            (At current)
            (commits c next (put_in s.snapshot next proofs) s)
    commit_exact-Ends current next proofs more s at same added =
        committed-Ends c (λ r t. At r t × (r ≡ next)) (At current) next _ s _
          (commit-Run s next proofs more at.0 same added, refl) at

    pub commit-Ends :
        (current next : R) (proofs : Option (List Proof)) (more : List Proof) (s : Session)
        → At current s
        → Keyed next
        → or_else proofs s.snapshot.proofs ≡ s.snapshot.proofs ++ more
        → Ends At (At current) (commits c next (put_in s.snapshot next proofs) s)
    commit-Ends current next proofs more s at same added =
        committed-Ends c At (At current) next _ s _ (commit-Run s next proofs more at.0 same added)
          at

    -- The same, where no proofs are added.
    pub recommit_exact-Ends :
        (current next : R) (s : Session)
        → At current s
        → Keyed next
        → Ends
            (λ r t. At r t × (r ≡ next))
            (At current)
            (commits c next (put_in s.snapshot next none) s)
    recommit_exact-Ends current next s at same =
        commit_exact-Ends current next none [] s at same (sym (++-nil s.snapshot.proofs))

    pub recommit-Ends :
        (current next : R) (s : Session)
        → At current s
        → Keyed next
        → Ends At (At current) (commits c next (put_in s.snapshot next none) s)
    recommit-Ends current next s at same =
        commit-Ends current next none [] s at same (sym (++-nil s.snapshot.proofs))

  pub Good-of : (current : R) (r : Attempt R × Session) → Ends At (At current) r → Good r
  Good-of current r h = Ends-weaken r h (λ a s at. at) (λ s at. at.0)

  -- A step of a `try` block whose handler is sound wherever the record is stored.
  module _ (handle : Failure → Runtime R) (current : R)
      (sound : (e : Failure) (s : Session) → At current s → Good (handle e s)) where
    pub tries-Good :
        {A : Type 0} (P : A → Session → Type 0) (r : Attempt A × Session) (next : A → Runtime R)
        → Ends P (At current) r
        → ((a : A) (s : Session) → P a s → Good (next a s))
        → Good (either handle next r)
    tries-Good P r next h f = either-Ends P At Run (At current) r handle next h sound f

    pub tries_asked-Good :
        {A : Type 0} (answer : Attempt A) (s : Session) (next : A → Runtime R)
        → At current s
        → ((a : A) (t : Session) → At current t → Good (next a t))
        → Good (tries handle (asked answer) next s)
    tries_asked-Good answer s next at f =
        tries-Good (λ a t. At current t) (asked answer s) next (asked-Ends answer s (At current) at)
          f

    -- The last commit of a `try` block.
    pub tries_last-Good :
        (r : Attempt R × Session) → Ends At (At current) r → Good (either handle return r)
    tries_last-Good r h = tries-Good At r return h (λ a s at. at)
