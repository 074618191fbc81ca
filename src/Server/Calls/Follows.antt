-- ===== src/Server/Calls/Follows.antt =====
-- Runs of the server's code over an operating system, and over the same one with its list of calls:
-- they do the same, and all calls are permitted.
use netfilum.Prelude.{
  ◌≡◌, refl, ap, ◌∙◌, arith, inl, inr, List, All, Bool, true, false, if◌then◌else◌,
}
use netfilum.Prelude.Texts.{Text}
use netfilum.Prelude.Results.{
  Result, ok, err, Run, Result-cases, pure, raise, with_err, map_err, ◌>>=◌,
}
use netfilum.Protocol.{RpcError}
use netfilum.Protocol.Errors.{IoError}
use netfilum.Paths.{PathBuf}
use netfilum.Server.Fs.{Fs}
use netfilum.Server.Attributes.{io, ask}
use netfilum.Server.Resolve.{RpcServer, resolve_existing, resolve_for_new_path, parent_or_root}
use netfilum.Server.Resolve.Laws.{
  IsConfined, resolve_existing-keeps, resolve_for_new_path-keeps, resolve_existing-IsConfined,
  resolve_for_new_path-IsConfined,
}
use netfilum.Server.Calls.{Call, Noted, noting, unnoted, logged}

module _ (F : Fs) (Permitted : Call → Type 0) where
  pub record Follows {E A : Type 0} (s : F.State) (l : List Call) (m : Run F.State E A)
      (m' : Run (Noted F) E A) : Type 0 where
    pub same : (m' (s, l)).0 ≡ (m s).0
    pub left : (m' (s, l)).1.0 ≡ (m s).1
    pub permitted : All Permitted l → All Permitted (m' (s, l)).1.1

  abbrev pub AlwaysFollows : {E A : Type 0} → Run F.State E A → Run (Noted F) E A → Type 0
  AlwaysFollows m m' = (s : F.State) (l : List Call) → Follows s l m m'

  pub >>=-Follows :
      {E A B : Type 0} (m : Run F.State E A) (m' : Run (Noted F) E A)
      → (k : A → Run F.State E B) (k' : A → Run (Noted F) E B) → (s : F.State) (l : List Call)
      → Follows s l m m'
      → ((a : A) → AlwaysFollows (k a) (k' a))
      → Follows s l (m >>= k) (m' >>= k')
  >>=-Follows m m' k k' s l g h = elim (Result-cases (m s).0) [
    | inl (a, e) ↦
        let next = h a (m' (s, l)).1.0 (m' (s, l)).1.1 in
        record {
          same = rw (e, g.same, e) (next.same ∙ ap (λ t. (k a t).0) g.left);
          left = rw (e, g.same, e) (next.left ∙ ap (λ t. (k a t).1) g.left);
          permitted = rw (g.same, e) (λ q. next.permitted (g.permitted q));
        }
    | inr (x, e) ↦ record {
      same = rw (e, g.same, e) refl;
      left = rw (e, g.same, e) g.left;
      permitted = rw (g.same, e) g.permitted;
    }
  ]

  -- A run that changes nothing.
  pub query-Follows :
      {E A : Type 0} (f : F.State → Result E A) → AlwaysFollows (λ s. (f s, s)) (λ n. (f n.0, n))
  query-Follows f s l = record { same = refl; left = refl; permitted = λ q. q }

  pub noting-Follows :
      {A : Type 0} (c : Call) (m : Run F.State IoError A)
      → Permitted c
      → AlwaysFollows (io F m) (io (logged F) (noting F c m))
  noting-Follows c m allowed s l = record {
    same = refl;
    left = refl;
    permitted = λ q. (allowed, q);
  }

  pub unnoted-Follows :
      {A : Type 0} (m : Run F.State IoError A)
      → AlwaysFollows (io F m) (io (logged F) (unnoted F m))
  unnoted-Follows m s l = record { same = refl; left = refl; permitted = λ q. q }

  -- A call with its path, a call on an open file, and a question, each with what is done next.
  pub noting-then :
      {A B : Type 0} (c : Call) (m : Run F.State IoError A)
      → (k : A → Run F.State RpcError B) (k' : A → Run (Noted F) RpcError B) → Permitted c
      → ((a : A) → AlwaysFollows (k a) (k' a))
      → AlwaysFollows (io F m >>= k) (io (logged F) (noting F c m) >>= k')
  noting-then c m k k' allowed h s l =
      >>=-Follows (io F m) (io (logged F) (noting F c m)) k k' s l (noting-Follows c m allowed s l)
        h

  pub unnoted-then :
      {A B : Type 0} (m : Run F.State IoError A)
      → (k : A → Run F.State RpcError B) (k' : A → Run (Noted F) RpcError B)
      → ((a : A) → AlwaysFollows (k a) (k' a))
      → AlwaysFollows (io F m >>= k) (io (logged F) (unnoted F m) >>= k')
  unnoted-then m k k' h s l =
      >>=-Follows (io F m) (io (logged F) (unnoted F m)) k k' s l (unnoted-Follows m s l) h

  pub ask-then :
      {A B : Type 0} (q : F.State → Result IoError A)
      → (k : A → Run F.State RpcError B) (k' : A → Run (Noted F) RpcError B)
      → ((a : A) → AlwaysFollows (k a) (k' a))
      → AlwaysFollows (ask F q >>= k) (ask (logged F) (λ n. q n.0) >>= k')
  ask-then q k k' h s l =
      >>=-Follows (ask F q) (ask (logged F) (λ n. q n.0)) k k' s l
        (query-Follows (λ t. (ask F q t).0) s l) h

  pub pure-Follows : {E A : Type 0} (a : A) → AlwaysFollows {E = E} (pure a) (pure a)
  pure-Follows a s l = record { same = refl; left = refl; permitted = λ q. q }

  pub noted-Follows :
      {A : Type 0} (c : Call) (m : Run F.State IoError A)
      → Permitted c
      → AlwaysFollows m (noting F c m)
  noted-Follows c m allowed s l = record { same = refl; left = refl; permitted = λ q. (allowed, q) }

  pub with_err-Follows :
      {D E A : Type 0} (g : D → E) (m : Run F.State D A) (m' : Run (Noted F) D A)
      → AlwaysFollows m m'
      → AlwaysFollows (with_err g m) (with_err g m')
  with_err-Follows g m m' h s l =
      let f = h s l in
      record { same = ap (map_err g) f.same; left = f.left; permitted = f.permitted }

  pub raise-Follows : {E A : Type 0} (e : E) → AlwaysFollows {A = A} (raise e) (raise e)
  raise-Follows e s l = record { same = refl; left = refl; permitted = λ q. q }

  pub if-Follows :
      {E A : Type 0} (b : Bool) (m n : Run F.State E A) (m' n' : Run (Noted F) E A)
      → AlwaysFollows m m'
      → AlwaysFollows n n'
      → AlwaysFollows (if b then m else n) (if b then m' else n')
  if-Follows true m n m' n' g h = g
  if-Follows false m n m' n' g h = h

  -- What is done with the answer to a question that cannot fail.
  pub probe-then :
      {E A : Type 0} (test : F.State → Bool)
      → (k : Bool → Run F.State E A) (k' : Bool → Run (Noted F) E A)
      → ((b : Bool) → AlwaysFollows (k b) (k' b))
      → AlwaysFollows (λ s. k (test s) s) (λ n. k' (test n.0) n)
  probe-then test k k' h s l =
      let f = h (test s) s l in record { same = f.same; left = f.left; permitted = f.permitted }

  -- A run that answers a question about this state, and what is done with the answer.
  asked-Follows :
      {E A B : Type 0} (m : Run F.State E A) (m' : Run (Noted F) E A)
      → (k : A → Run F.State E B) (k' : A → Run (Noted F) E B)
      → (s : F.State) (l : List Call) (r : Result E A) → m s ≡ (r, s)
      → m' (s, l) ≡ (r, (s, l))
      → ((a : A) → r ≡ ok a → Follows s l (k a) (k' a))
      → Follows s l (m >>= k) (m' >>= k')
  asked-Follows m m' k k' s l (ok a) g g' h =
      let next = h a refl in
      record {
        same = rw (g, g') next.same;
        left = rw (g, g') next.left;
        permitted = rw g' next.permitted;
      }
  asked-Follows m m' k k' s l (err e) g g' h = record {
    same = rw (g, g') refl;
    left = rw (g, g') refl;
    permitted = rw g' (λ q. q);
  }

module _ (F : Fs) (server : RpcServer) where
  resolve_existing-logged :
      (relative : Text) (s : F.State) (l : List Call)
      → resolve_existing (logged F) server relative (s, l)
        ≡ ((resolve_existing F server relative s).0, (s, l))
  unfolding resolve_existing
  resolve_existing-logged relative s l = ground arith

  resolve_for_new_path-logged :
      (relative : Text) (s : F.State) (l : List Call)
      → resolve_for_new_path (logged F) server relative (s, l)
        ≡ ((resolve_for_new_path F server relative s).0, (s, l))
  unfolding resolve_for_new_path
  resolve_for_new_path-logged relative s l = ground arith

  -- What is done with a path that was resolved in this state.
  pub resolve_existing-Follows :
      (Permitted : Call → Type 0) {A : Type 0} (relative : Text) (s : F.State) (l : List Call)
      → (k : PathBuf → Run F.State RpcError A) (k' : PathBuf → Run (Noted F) RpcError A)
      → ((p : PathBuf) → IsConfined F server s p p → Follows F Permitted s l (k p) (k' p))
      → Follows F Permitted s l
          (resolve_existing F server relative >>= k)
          (resolve_existing (logged F) server relative >>= k')
  resolve_existing-Follows Permitted relative s l k k' h =
      let kept = resolve_existing-keeps F server relative s in
      asked-Follows F Permitted (resolve_existing F server relative)
        (resolve_existing (logged F) server relative) k k' s l
        (resolve_existing F server relative s).0
        (ap (λ t. ((resolve_existing F server relative s).0, t)) kept)
        (resolve_existing-logged relative s l)
        (λ p e. h p (resolve_existing-IsConfined F server relative s p e).1)

  pub resolve_for_new_path-Follows :
      (Permitted : Call → Type 0) {A : Type 0} (relative : Text) (s : F.State) (l : List Call)
      → (k : PathBuf → Run F.State RpcError A) (k' : PathBuf → Run (Noted F) RpcError A)
      → ((p : PathBuf)
          → IsConfined F server s (parent_or_root server p) p
          → Follows F Permitted s l (k p) (k' p))
      → Follows F Permitted s l
          (resolve_for_new_path F server relative >>= k)
          (resolve_for_new_path (logged F) server relative >>= k')
  resolve_for_new_path-Follows Permitted relative s l k k' h =
      let kept = resolve_for_new_path-keeps F server relative s in
      asked-Follows F Permitted (resolve_for_new_path F server relative)
        (resolve_for_new_path (logged F) server relative) k k' s l
        (resolve_for_new_path F server relative s).0
        (ap (λ t. ((resolve_for_new_path F server relative s).0, t)) kept)
        (resolve_for_new_path-logged relative s l)
        (λ p e. h p (resolve_for_new_path-IsConfined F server relative s p e).1)
