-- ===== src/Net/Handler/Routes.antt =====
-- Which callable serves a request.
use php_flame.Prelude.{
  or_else, or_else-none, ℕ, ◌≡◌, refl, sym, subst, ap, ◌∙◌, inl, inr, Bool, true, false, ◌&&◌,
  Option, none, some, List, [], ◌∷◌, ◌++◌, ◌==◌, if◌then◌else◌, arith, Bytes, All, same, same_refl,
  same_eq, Bool-cases, Outcome, returns, ◌>>=◌,
}
use php_flame.Net.Request.{put, at}
use php_flame.Net.Handler.{
  Handler, construct, set_handler, Method, put_, delete_, post_, get_, method_name, route, Session,
  on_session_middle, before_in, on_session_before, or_default, on_session,
}

not_same : (j i : Bytes) → same j i ≡ false → same i j ≡ false
not_same j i e = elim (Bool-cases (same i j)) [
  | inl g ↦ absurd (cc (e, subst (λ x. same x i ≡ true) (same_eq i j g) (same_refl i)))
  | inr g ↦ g
]

at-put :
    {A : Type 0} (k j : Bytes) (v : A) (m : List (Bytes × A))
    → at k (put j v m) ≡ (if same k j then some v else at k m)
unfolding at put
at-put k j v [] = refl
at-put k j v ((i, w) ∷ rest) = elim (Bool-cases (same j i)) [
  | inl e ↦ elim (Bool-cases (same k i)) [
    | inl g ↦ rw (e, at, g, subst (λ x. same k x ≡ true) (sym (same_eq j i e)) g)
    | inr g ↦ rw (e, at, g, subst (λ x. same k x ≡ false) (sym (same_eq j i e)) g)
  ]
  | inr e ↦ elim (Bool-cases (same k i)) [
    | inl g ↦
        let other : same k j ≡ false =
          subst (λ x. same x j ≡ false) (sym (same_eq k i g)) (not_same j i e) in
        rw (e, at, g, other)
    | inr g ↦ rw (e, at, g) (at-put k j v rest)
  ]
]

and_assoc : (a b c : Bool) → (a && b) && c ≡ a && (b && c)
and_assoc true b c = refl
and_assoc false b c = refl

-- A path from its first slash, and a method without one.
unfoldable pub begins_slash : Bytes → Bool
begins_slash [] = false
begins_slash (c ∷ path) = c == 47

unfoldable pub has_slash : Bytes → Bool
has_slash [] = false
has_slash (c ∷ s) = if c == 47 then true else has_slash s

same-joined :
    (m n p q : Bytes)
    → has_slash m ≡ false
    → has_slash n ≡ false
    → begins_slash p ≡ true
    → begins_slash q ≡ true
    → same (m ++ p) (n ++ q) ≡ same m n && same p q
unfolding same has_slash begins_slash
same-joined [] [] p q a b c d = refl
same-joined [] (y ∷ n) (x ∷ p) q a b c d = ground arith
same-joined (x ∷ m) [] p (y ∷ q) a b c d = ground arith
same-joined (x ∷ m) (y ∷ n) p q a b c d = elim (Bool-cases (x == 47)) [
  | inl e ↦ cc (e, a)
  | inr e ↦ elim (Bool-cases (y == 47)) [
    | inl f ↦ cc (f, b)
    | inr f ↦
        ap (λ t. (x == y) && t)
          (same-joined m n p q (subst (λ t. (if t then true else has_slash m) ≡ false) e a)
            (subst (λ t. (if t then true else has_slash n) ≡ false) f b) c d)
        ∙ sym (and_assoc (x == y) (same m n) (same p q))
  ]
]
same-joined m n [] q a b c d = cc c
same-joined m n p [] a b c d = cc d

-- A call of put(), remove(), post() or get() with a callable.
pub record Route : Type 0 where
  pub method : Method
  pub path : Bytes
  pub cb : ℕ

unfoldable pub registered : List Route → Handler → Outcome Handler
registered [] h = returns h
registered (r ∷ routes) h = route r.method r.path (some r.cb) h >>= registered routes

unfoldable pub serves : Bytes → Bytes → Route → Bool
serves method path r = same method (method_name r.method) && same path r.path

-- The callable of the last route for a method and a path.
unfoldable pub last_route : Bytes → Bytes → List Route → Option ℕ
last_route method path [] = none
last_route method path (r ∷ routes) =
    or_else (last_route method path routes) (if serves method path r then some r.cb else none)

method_name-slash : (m : Method) → has_slash (method_name m) ≡ false
unfolding has_slash method_name
method_name-slash put_ = refl
method_name-slash delete_ = refl
method_name-slash post_ = refl
method_name-slash get_ = refl

abbrev pub BeginsSlash : Route → Type 0
BeginsSlash r = begins_slash r.path ≡ true

or_else-if :
    (o p : Option ℕ) (b : Bool) (v : ℕ)
    → or_else o (if b then some v else p) ≡ or_else (or_else o (if b then some v else none)) p
unfolding or_else
or_else-if (some w) p b v = refl
or_else-if none p true v = refl
or_else-if none p false v = refl

registered-at :
    (routes : List Route) (method path : Bytes) (h : Handler)
    → All BeginsSlash routes
    → has_slash method ≡ false
    → begins_slash path ≡ true
    → (k : Handler) × (registered routes h ≡ returns k)
      × (at (method ++ path) k.handle_
          ≡ or_else (last_route method path routes) (at (method ++ path) h.handle_))
      × (k.handle_default ≡ h.handle_default)
unfolding registered last_route route set_handler
registered-at [] method path h n m p = (h, refl, unfold or_else in refl, refl)
registered-at (r ∷ routes) method path h (n, rest) m p =
    let key = method_name r.method ++ r.path in
    let (k, goes, found, kept) =
      registered-at routes method path (record h { handle_ = put key r.cb h.handle_ }) rest m p in
    let apart =
      same-joined method (method_name r.method) path r.path m (method_name-slash r.method) p n in
    let served : same (method ++ path) key ≡ serves method path r = unfold serves in apart in
    (
      k,
      goes,
      found
          ∙ ap (or_else (last_route method path routes)) (
              at-put (method ++ path) key r.cb h.handle_
              ∙ ap (λ b. if b then some r.cb else at (method ++ path) h.handle_) served)
          ∙ or_else-if (last_route method path routes) (at (method ++ path) h.handle_)
              (serves method path r) r.cb,
      kept,
    )

before_in-cb : (b : Option ℕ) (h : Handler) (s : Session) → (before_in b h s).cb ≡ s.cb
unfolding before_in on_session_middle
before_in-cb none h s = refl
before_in-cb (some cb) h s = refl

on_session-cb :
    (method path : Bytes) (h : Handler)
    → (on_session method path h).cb ≡ or_default (at (method ++ path) h.handle_) h.handle_default
unfolding on_session on_session_before
on_session-cb method path h = before_in-cb h.handle_before h _

-- A handler on which routes were registered, each with a path that begins with a slash. A request
-- whose method has no slash and whose path begins with one is served by the callable of the last
-- route for this method and this path, and without such a route by the default.
pub registered-serves :
    (routes : List Route) (method path : Bytes) (nothing : ℕ)
    → All BeginsSlash routes
    → has_slash method ≡ false
    → begins_slash path ≡ true
    → (h : Handler) × (registered routes (construct nothing) ≡ returns h)
      × ((on_session method path h).cb ≡ or_default (last_route method path routes) nothing)
unfolding construct at
registered-serves routes method path nothing n m p =
    let (h, goes, found, kept) = registered-at routes method path (construct nothing) n m p in
    (
      h,
      goes,
      on_session-cb method path h
          ∙ ap (λ o. or_default o h.handle_default)
              (found ∙ or_else-none (last_route method path routes))
          ∙ ap (or_default (last_route method path routes)) kept,
    )
