-- ===== src/Deploy/Reserves/Bracket.antt =====
-- Who administers the pool while helpers/init-helpers.ts configures the reserves through a helper.
use palmy_protocol.Prelude.{
  Bool, ◌≡◌, refl, sym, ◌∙◌, ap, subst, Option, none, some, List, [], ◌∷◌, ◌++◌, All, append-nil,
  ◌⊎◌, inl, inr, String, map, Dict, lookup, str_eq,
}
use palmy_protocol.Misc.{chunk}
use palmy_protocol.Types.{ReserveParams}
use palmy_protocol.Deploy.{
  Env, Event, Error, History, Result, ok, err, perform, set_pool_admin, configure_reserves,
  ConfigureReserveInput,
}
use palmy_protocol.Deploy.Events.{
  Extends, Adds, Adds-elim, Adds-cond, Adds-bind, Adds-pure, Adds-throw, Adds-unless, Adds-read,
  Adds-perform, >>=-ok, >>=-err, perform-ok, perform-err,
}
use palmy_protocol.Deploy.Registry.{truthy}
use palmy_protocol.Deploy.Reserves.{
  perform_all, answered, already_enabled, select_reserves, configure_selected, configure_with,
  configure_input,
}
use palmy_protocol.Deploy.Reserves.Batches.{bracket-ok}

abbrev pub admin_of : Event → Option String
admin_of (set_pool_admin admin) = some admin
admin_of _ = none

abbrev pub or_else : Option String → Option String → Option String
or_else none b = b
or_else (some a) b = some a

-- The pool's admin after the events, from the admin before them.
abbrev pub pool_admin : Option String → List Event → Option String
pool_admin admin [] = admin
pool_admin admin (e ∷ events) = pool_admin (or_else (admin_of e) admin) events

pool_admin-append :
    (a : Option String) (h k : List Event) → pool_admin a (h ++ k) ≡ pool_admin (pool_admin a h) k
pool_admin-append a [] k = refl
pool_admin-append a (e ∷ h) k = pool_admin-append (or_else (admin_of e) a) h k

abbrev IsNotAdmin : Event → Type 0
IsNotAdmin e = admin_of e ≡ none

pool_admin-quiet : (a : Option String) (es : List Event) → All IsNotAdmin es → pool_admin a es ≡ a
pool_admin-quiet a [] quiet = refl
pool_admin-quiet a (e ∷ es) quiet = rw quiet.0 (pool_admin-quiet a es quiet.1)

-- An admin who was set stays, unless another is set.
pool_admin-after :
    (a : Option String) (admin : String) (h h1 : List Event)
    → Extends IsNotAdmin (h ++ (set_pool_admin admin ∷ [])) h1
    → pool_admin a h1 ≡ some admin
pool_admin-after a admin h h1 (es, e, quiet) = rw e (
    pool_admin-append a (h ++ (set_pool_admin admin ∷ [])) es
    ∙ pool_admin-quiet _ es quiet
    ∙ pool_admin-append a h (set_pool_admin admin ∷ []))

abbrev IsNothing : Event → Type 0
IsNothing e = ⊥

no_event : (h h' : History) → Extends IsNothing h h' → h' ≡ h
no_event h h' ([], e, quiet) = e ∙ append-nil h
no_event h h' (x ∷ es, e, quiet) = absurd quiet.0

module _ ⦃env : Env⦄ where
  Adds-configure :
      (cs : List (List ConfigureReserveInput))
      → Adds IsNotAdmin (perform_all (map configure_reserves cs))
  unfolding perform_all
  Adds-configure [] = Adds-pure IsNotAdmin tt
  Adds-configure (c ∷ cs) =
      Adds-bind IsNotAdmin (Adds-perform IsNotAdmin (configure_reserves c) refl)
        (λ _. Adds-configure cs)

  Adds-answered : (token : String) (answer : Option Bool) → Adds IsNothing (answered token answer)
  Adds-answered token none = Adds-throw IsNothing _
  Adds-answered token (some enabled) = Adds-pure IsNothing enabled

  Adds-already_enabled : (token : String) → Adds IsNothing (already_enabled token)
  unfolding already_enabled
  Adds-already_enabled token =
      Adds-bind IsNothing (Adds-read IsNothing _) (λ answer. Adds-answered token answer)

  Adds-select :
      (tokens : Dict String) (reserves : Dict ReserveParams) (acc : List ConfigureReserveInput)
      → Adds IsNothing (select_reserves tokens reserves acc)
  unfolding select_reserves
  Adds-select tokens [] acc = Adds-pure IsNothing acc
  Adds-select tokens ((symbol, params) ∷ rest) acc =
      Adds-elim IsNothing (truthy (lookup symbol tokens)) (Adds-select tokens rest acc) (λ token.
        Adds-cond IsNothing (str_eq params.base_ltv_as_collateral "-1")
          (Adds-select tokens rest acc)
          (Adds-bind IsNothing (Adds-already_enabled token) (λ enabled.
            Adds-cond IsNothing enabled (Adds-select tokens rest acc) (
              Adds-bind IsNothing (Adds-unless IsNothing _ _)
                (λ _. Adds-select tokens rest (acc ++ (configure_input token params ∷ [])))))))

  pub select_reserves-history :
      (tokens : Dict String) (reserves : Dict ReserveParams) (h : History)
      → (select_reserves tokens reserves [] h).1 ≡ h
  select_reserves-history tokens reserves h =
      no_event h _ ((Adds-select tokens reserves []).extends h)

  -- The events of a configuration that succeeds.
  abbrev pub configuration : (helper admin : String) → List ConfigureReserveInput → List Event
  configuration helper admin [] = []
  configuration helper admin (input ∷ inputs) =
      set_pool_admin helper
      ∷ (map configure_reserves (chunk (input ∷ inputs) 20) ++ (set_pool_admin admin ∷ []))

  configure_selected-ok :
      (helper admin : String) (inputs : List ConfigureReserveInput) (h h' : History)
      → configure_selected helper admin inputs h ≡ (ok tt, h')
      → h' ≡ h ++ configuration helper admin inputs
  unfolding configure_selected
  configure_selected-ok helper admin [] h h' e = ap (λ r. r.1) (sym e) ∙ sym (append-nil h)
  configure_selected-ok helper admin (input ∷ inputs) h h' e =
      bracket-ok (set_pool_admin helper) (set_pool_admin admin)
        (map configure_reserves (chunk (input ∷ inputs) 20)) h e

  restored :
      (helper admin : String) (inputs : List ConfigureReserveInput) (h h' : History)
      → h' ≡ h ++ configuration helper admin inputs
      → (inputs ≡ []) ⊎ ((before : Option String) → pool_admin before h' ≡ some admin)
  restored helper admin [] h h' e = inl refl
  restored helper admin (input ∷ inputs) h h' e = inr (λ before. rw e (
      pool_admin-append before h (configuration helper admin (input ∷ inputs))
      ∙ pool_admin-append (some helper) (map configure_reserves (chunk (input ∷ inputs) 20))
          (set_pool_admin admin ∷ [])))

  configuring :
      (helper : String) (cs : List (List ConfigureReserveInput)) (h h1 h2 : History)
      (r : Result (Unit {0})) (before : Option String) {t : Unit {0}}
      → perform (set_pool_admin helper) h ≡ (ok t, h1)
      → perform_all (map configure_reserves cs) h1 ≡ (r, h2)
      → pool_admin before h2 ≡ some helper
  configuring helper cs h h1 h2 r before a1 a2 = pool_admin-after before helper h h2 (
      subst (λ k. Extends IsNotAdmin k h2) (perform-ok _ h a1)
        (subst (λ x. Extends IsNotAdmin h1 x.1) a2 ((Adds-configure cs).extends h1)))

  configure_selected-err :
      (helper admin : String) (inputs : List ConfigureReserveInput) (h h' : History) (x : Error)
      (before : Option String)
      → configure_selected helper admin inputs h ≡ (err x, h')
      → (h' ≡ h) ⊎ (pool_admin before h' ≡ some helper)
  unfolding configure_selected
  configure_selected-err helper admin [] h h' x before e = cc
  configure_selected-err helper admin (input ∷ inputs) h h' x before e = elim (>>=-err _ _ h e) [
    | inl refused ↦ inl (perform-err _ h refused)
    | inr (_, h1, a1, e1) ↦ elim (>>=-err _ _ h1 e1) [
      | inl a2 ↦ inr (configuring helper (chunk (input ∷ inputs) 20) h h1 h' _ before a1 a2)
      | inr (_, h2, a2, e2) ↦ inr (
          ap (pool_admin before) (perform-err _ h2 e2)
          ∙ configuring helper (chunk (input ∷ inputs) 20) h h1 h2 _ before a1 a2)
    ]
  ]

  -- The selected reserves, the events that were sent for them, and the pool's admin after them.
  abbrev pub Configures :
      (helper admin : String) → Dict ReserveParams → Dict String → History → History → Type 0
  Configures helper admin reserves tokens h h' =
      (inputs : List ConfigureReserveInput) × (select_reserves tokens reserves [] h
        ≡ (ok inputs, h))
      × (h' ≡ h ++ configuration helper admin inputs)
      × ((inputs ≡ []) ⊎ ((before : Option String) → pool_admin before h' ≡ some admin))

  pub configure_with-ok :
      (helper admin : String) (reserves : Dict ReserveParams) (tokens : Dict String)
      (h h' : History)
      → configure_with helper admin reserves tokens h ≡ (ok tt, h')
      → Configures helper admin reserves tokens h h'
  configure_with-ok helper admin reserves tokens h h' e =
      let (inputs, h1, a, e1) = >>=-ok (select_reserves tokens reserves []) _ h e in
      let same : h1 ≡ h = ap (λ r. r.1) (sym a) ∙ select_reserves-history tokens reserves h in
      let sent : h' ≡ h ++ configuration helper admin inputs =
        configure_selected-ok helper admin inputs h1 h' e1
        ∙ ap (λ k. k ++ configuration helper admin inputs) same in
      (inputs, a ∙ ap (λ k. (ok inputs, k)) same, sent, restored helper admin inputs h h' sent)

  pub configure_with-err :
      (helper admin : String) (reserves : Dict ReserveParams) (tokens : Dict String)
      (h h' : History) (x : Error) (before : Option String)
      → configure_with helper admin reserves tokens h ≡ (err x, h')
      → (h' ≡ h) ⊎ (pool_admin before h' ≡ some helper)
  configure_with-err helper admin reserves tokens h h' x before e =
      elim (>>=-err (select_reserves tokens reserves []) _ h e) [
        | inl a ↦ inl (ap (λ r. r.1) (sym a) ∙ select_reserves-history tokens reserves h)
        | inr (inputs, h1, a, e1) ↦
            subst (λ k. (h' ≡ k) ⊎ (pool_admin before h' ≡ some helper))
              (ap (λ r. r.1) (sym a) ∙ select_reserves-history tokens reserves h)
              (configure_selected-err helper admin inputs h1 h' x before e1)
      ]
