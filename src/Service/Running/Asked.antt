-- ===== src/Service/Running/Asked.antt =====
-- The operations of messages and of their answers, and the lists of the messages whose handlers run
-- or have ended.
use mathlib.Core.Path.{subst}
use mathlib.Core.Option
use mathlib.Core.List.Permᴰ
use mathlib.Core.List.{Permᴰ, append_assoc}
use fpd.Base.{◌≡◌, refl, sym, arith, ℕ, zero, suc, Option, none, some, List, [], ◌∷◌, ◌++◌, All}
use fpd.Service.{Host, ServerMessage, ProxyMessage}
use fpd.Service.Tasks.{take_at}

-- The operations that the messages answer.
abbrev pub answers : {H : Host} → List (ProxyMessage H) → List ℕ
answers [] = []
answers (m ∷ ms) = elim m.op_id [ none ↦ answers ms | some op_id ↦ op_id ∷ answers ms ]

-- The operations of the messages.
abbrev pub asked : List ServerMessage → List ℕ
asked [] = []
asked (m ∷ ms) = elim m.op_id [ none ↦ asked ms | some op_id ↦ op_id ∷ asked ms ]

pub answers-append :
    {H : Host} (xs ys : List (ProxyMessage H)) → answers (xs ++ ys) ≡ answers xs ++ answers ys
answers-append [] ys = refl
answers-append (x ∷ xs) ys = ground (arith, answers-append xs ys)

pub asked-append : (xs ys : List ServerMessage) → asked (xs ++ ys) ≡ asked xs ++ asked ys
asked-append [] ys = refl
asked-append (x ∷ xs) ys = ground (arith, asked-append xs ys)

pub answers-All :
    {H : Host} (ms : List (ProxyMessage H))
    → All (λ (m : ProxyMessage H). m.op_id ≡ none) ms
    → answers ms ≡ []
answers-All [] none_asked = refl
answers-All (m ∷ ms) (has_none, rest) = ground (arith, answers-All ms rest)

-- What is taken, with the others, is what was there.
abbrev pub Taken : {A : Type 0} → List A → Option (A × List A) → Type 0
Taken xs none = Unit
Taken xs (some (y, ys)) = Permᴰ xs (y ∷ ys)

Taken-map :
    {A : Type 0} (x : A) (xs : List A) (o : Option (A × List A))
    → Taken xs o
    → Taken (x ∷ xs) (Option.map (λ (y, ys). (y, x ∷ ys)) o)
Taken-map x xs none h = tt
Taken-map x xs (some (y, ys)) h = Permᴰ.trans (Permᴰ.cons refl h) (Permᴰ.swap refl refl)

pub Taken-take_at : {A : Type 0} (k : ℕ) (xs : List A) → Taken xs (take_at k xs)
Taken-take_at k [] = tt
Taken-take_at zero (x ∷ xs) = Permᴰ.refl (x ∷ xs)
Taken-take_at (suc k) (x ∷ xs) = Taken-map x xs (take_at k xs) (Taken-take_at k xs)

-- The handler of `message` is taken from those that run.
pub moved-replied :
    (replied gone tasks others spawned : List ServerMessage) (message : ServerMessage)
    → Permᴰ (replied ++ (gone ++ tasks)) spawned
    → Permᴰ tasks (message ∷ others)
    → Permᴰ ((replied ++ (message ∷ [])) ++ (gone ++ others)) spawned
moved-replied replied gone tasks others spawned message all taken =
    subst (λ xs. Permᴰ xs spawned) (sym (append_assoc replied (message ∷ []) (gone ++ others)))
      (Permᴰ.trans (Permᴰ.append_left replied (Permᴰ.symm (Permᴰ.middle message gone others)))
        (Permᴰ.trans (Permᴰ.append_left replied (Permᴰ.append_left gone (Permᴰ.symm taken))) all))

pub moved-dropped :
    (replied gone tasks others spawned : List ServerMessage) (message : ServerMessage)
    → Permᴰ (replied ++ (gone ++ tasks)) spawned
    → Permᴰ tasks (message ∷ others)
    → Permᴰ (replied ++ ((gone ++ (message ∷ [])) ++ others)) spawned
moved-dropped replied gone tasks others spawned message all taken =
    subst (λ xs. Permᴰ (replied ++ xs) spawned) (sym (append_assoc gone (message ∷ []) others))
      (Permᴰ.trans (Permᴰ.append_left replied (Permᴰ.append_left gone (Permᴰ.symm taken))) all)

pub answers-reply :
    {H : Host} (r : ProxyMessage H) {op_id : ℕ}
    → r.op_id ≡ some op_id
    → answers (r ∷ []) ≡ op_id ∷ []
answers-reply r e = rw e refl

pub asked-message :
    (message : ServerMessage) {op_id : ℕ}
    → message.op_id ≡ some op_id
    → asked (message ∷ []) ≡ op_id ∷ []
asked-message message e = rw e refl
