-- ===== src/Site/Loop.antt =====
-- `for_each_instance`: its three loops are one pass over all instances.
use clearwater_fv_test.Base.{subst, ◌↔◌, ◌≡◌, refl, sym, ap, ◌∙◌, List, [], ◌∷◌, ◌++◌}
use clearwater_fv_test.System.{
  Trace, Outcome, ok, raised, terminated, undefined, replaced, M, ◌>>=◌, pure, continue,
}
use clearwater_fv_test.Process.{ProcessInstance}
use clearwater_fv_test.Site.Addresses.{instances}
use clearwater_fv_test.Site.Lifecycle.{for_each, for_each_instance}
use clearwater_fv_test.Site.{Site}

module _ {ℓ κ} {A : Type ℓ} {B : Type κ} where
  continue-ext :
      (r : Outcome A × Trace) (f g : A → M B)
      → ((a : A) (t : Trace) → f a t ≡ g a t)
      → continue r f ≡ continue r g
  continue-ext (ok a, t) f g h = h a t
  continue-ext (raised e, t) f g h = refl
  continue-ext (terminated, t) f g h = refl
  continue-ext (undefined, t) f g h = refl
  continue-ext (replaced, t) f g h = refl

  continue_assoc {μ} :
      {C : Type μ} (r : Outcome A × Trace) (f : A → M B) (g : B → M C)
      → continue (continue r f) g ≡ continue r (λ a t. continue (f a t) g)
  continue_assoc (ok a, t) f g = refl
  continue_assoc (raised e, t) f g = refl
  continue_assoc (terminated, t) f g = refl
  continue_assoc (undefined, t) f g = refl
  continue_assoc (replaced, t) f g = refl

-- A computation of two parts that returns, part by part.
continue-ok {ℓ κ} :
    {A : Type ℓ} {B : Type κ} (r : Outcome A × Trace) (f : A → M B) {b : B} {u : Trace}
    → continue r f ≡ (ok b, u)
    → (a : A) × (v : Trace) × (r ≡ (ok a, v)) × (f a v ≡ (ok b, u))
continue-ok (ok a, v) f e = (a, v, refl, e)
continue-ok (raised x, t) f e = cc
continue-ok (terminated, t) f e = cc
continue-ok (undefined, t) f e = cc
continue-ok (replaced, t) f e = cc

value_or {ℓ} : {A : Type ℓ} → A → Outcome A → A
value_or a (ok b) = b
value_or a _ = a

pure-ok {ℓ} :
    {A : Type ℓ} {a b : A} {t u : Trace}
    → ◌≡◌ {A = Outcome A × Trace} (ok a, t) (ok b, u)
    → (a ≡ b) × (t ≡ u)
unfolding value_or
pure-ok {a = a} e = (ap (λ r. value_or a r.0) e, ap (λ r. r.1) e)

pairs {ℓ κ} :
    {A : Type ℓ} {B : Type κ} {a a' : A} {b b' : B}
    → a ≡ a'
    → b ≡ b'
    → ◌≡◌ {A = A × B} (a, b) (a', b')
pairs e f = rw (e, f)

continue-pure {ℓ} : {A : Type ℓ} (r : Outcome A × Trace) → continue r (λ a. pure a) ≡ r
continue-pure (ok a, t) = refl
continue-pure (raised e, t) = refl
continue-pure (terminated, t) = refl
continue-pure (undefined, t) = refl
continue-pure (replaced, t) = refl

module _ {ℓ} {S : Type ℓ} (fn : S → ProcessInstance → M (S × ProcessInstance)) where
  -- One list after another.
  two_loops : S → List ProcessInstance → List ProcessInstance → M (S × List ProcessInstance)
  two_loops c is js = do
    (c₁, is') ← for_each fn c is
    (c₂, js') ← for_each fn c₁ js
    pure (c₂, is' ++ js')

  for_each-append :
      (c : S) (is js : List ProcessInstance) (t : Trace)
      → for_each fn c (is ++ js) t ≡ two_loops c is js t
  unfolding for_each two_loops
  for_each-append c [] js t = sym (continue-pure (for_each fn c js t))
  for_each-append c (i ∷ is) js t =
      continue-ext (fn c i t) _ _ (λ (c', k) u.
        ap (λ r. continue r (λ (c'', ks). pure (c'', k ∷ ks))) (for_each-append c' is js u)
        ∙ continue_assoc (for_each fn c' is u) _ _
        ∙ continue-ext (for_each fn c' is u) _ _
            (λ (c₁, is') v. continue_assoc (for_each fn c₁ js v) _ _)
        ∙ sym (continue_assoc (for_each fn c' is u) _ _))
      ∙ sym (continue_assoc (fn c i t) _ _)

  -- The three loops are one, however the calls end.
  for_each_instance-for_each :
      (c : S) (s : Site) (t : Trace)
      → continue (for_each_instance fn c s t) (λ (c', s'). pure (c', instances s'))
        ≡ for_each fn c (instances s) t
  unfolding for_each_instance two_loops
  for_each_instance-for_each c s t =
      let ms = s.memcached_instances in
      let rs = s.rogers_instances in
      let cs = s.chronos_instances in
      continue_assoc (for_each fn c ms t) _ _
      ∙ continue-ext (for_each fn c ms t) _ _ (λ (c₁, ms') u.
        continue_assoc (for_each fn c₁ rs u) _ _
        ∙ continue-ext (for_each fn c₁ rs u) _ _
            (λ (c₂, rs') v. continue_assoc (for_each fn c₂ cs v) _ _)
        ∙ sym (
            continue-ext (for_each fn c₁ rs u) _ _
              (λ (c₂, rs') v. continue_assoc (for_each fn c₂ cs v) _ _))
        ∙ sym (continue_assoc (for_each fn c₁ rs u) _ _)
        ∙ ap (λ r. continue r (λ (c₂, ks). pure (c₂, ms' ++ ks)))
            (sym (for_each-append c₁ rs cs u)))
      ∙ sym (for_each-append c ms (rs ++ cs) t)

  -- `fn` is called on each instance of a list in order, and each call returns: it is given what the
  -- function captures as the call before it left it, and its instance takes the place of the old one.
  pub data Pass : S → List ProcessInstance → Trace → S → List ProcessInstance → Trace → Type ℓ where
    none_left : {c : S} {t : Trace} → Pass c [] t c [] t
    called :
        {c c' c'' : S} {i j : ProcessInstance} {is js : List ProcessInstance} {t u v : Trace}
        → fn c i t ≡ (ok (c', j), u)
        → Pass c' is u c'' js v
        → Pass c (i ∷ is) t c'' (j ∷ js) v

  for_each-Pass :
      (c : S) (is : List ProcessInstance) (t : Trace) (c' : S) (js : List ProcessInstance)
      (u : Trace)
      → for_each fn c is t ≡ (ok (c', js), u)
      → Pass c is t c' js u
  unfolding for_each
  for_each-Pass c [] t c' js u e =
      let (same, later) = pure-ok e in
      subst (λ (x : S × List ProcessInstance). Pass c [] t x.0 x.1 u) same
        (subst (λ (v : Trace). Pass c [] t c [] v) later none_left)
  for_each-Pass c (i ∷ is) t c' js u e =
      let ((d, j), v, f, g) = continue-ok (fn c i t) _ e in
      let ((d', ks), w, h, k) = continue-ok (for_each fn d is v) _ g in
      let (same, later) = pure-ok k in
      subst (λ (x : S × List ProcessInstance). Pass c (i ∷ is) t x.0 x.1 u) same
        (subst (λ (x : Trace). Pass c (i ∷ is) t d' (j ∷ ks) x) later
          (called f (for_each-Pass d is v d' ks w h)))

  Pass-for_each :
      {c c' : S} {is js : List ProcessInstance} {t u : Trace}
      → Pass c is t c' js u
      → for_each fn c is t ≡ (ok (c', js), u)
  unfolding for_each
  Pass-for_each none_left = refl
  Pass-for_each (called e p) = simp (e, Pass-for_each p)

  -- For any function: `for_each_instance` returns, with what the function captures and with a site,
  -- exactly if the function, called once on each instance of its site, first the Memcached, then the
  -- Rogers and then the Chronos ones, each in order and given what the call before it left of
  -- what it captures, returns each time; and these are then the last call's captures and, in the
  -- same order, the instances that the calls left.
  pub for_each_instance-Pass :
      (c : S) (s : Site) (t : Trace) (c' : S) (js : List ProcessInstance) (u : Trace)
      → ((s' : Site) × (for_each_instance fn c s t ≡ (ok (c', s'), u)) × (instances s' ≡ js))
        ↔ Pass c (instances s) t c' js u
  for_each_instance-Pass c s t c' js u =
      let one = for_each_instance-for_each c s t in
      (
        λ (s', e, f). for_each-Pass c (instances s) t c' js u (
            sym one
            ∙ ap (λ r. continue r (λ (d, z). pure (d, instances z))) e
            ∙ ap (λ (ks : List ProcessInstance). (ok (c', ks), u)) f),
        λ p.
            let ((d, s'), v, e, f) =
              continue-ok (for_each_instance fn c s t) _ (one ∙ Pass-for_each p) in
            let (same, later) = pure-ok f in
            (
              s',
              e ∙ ap (λ (x : S × Trace). (ok (x.0, s'), x.1)) (pairs (ap (λ x. x.0) same) later),
              ap (λ x. x.1) same,
            ),
      )
