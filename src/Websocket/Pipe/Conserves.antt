-- ===== src/Websocket/Pipe/Conserves.antt =====
-- No message of the pool is lost or doubled.
use mathlib.Core.List.Permᴰ
use mathlib.Core.List.{Permᴰ, append-nil, append_assoc}
use mathlib.Core.Path.{subst}
use fpd.Base.{sym, List, [], ◌∷◌, ◌++◌, perm-blocks}
use fpd.Websocket.{Message}
use fpd.Websocket.Pipe.Pool.{
  Port, Pool, Deal, take, give, put_back, OneDeals, this, another, Step, enqueue, deal, open_port,
  Steps, here, step,
}

-- All messages, with those that each connection has in hand or was given.
abbrev pub in_ports : List Port → List Message
in_ports [] = []
in_ports (p ∷ ps) = (p.hand ++ p.given) ++ in_ports ps

abbrev pub everything : Pool → List Message
everything q = q.waiting ++ in_ports q.ports

Deal-Permᴰ :
    {waiting left : List Message} {port after : Port} (ports : List Port)
    → Deal waiting port left after
    → Permᴰ (left ++ in_ports (after ∷ ports)) (waiting ++ in_ports (port ∷ ports))
Deal-Permᴰ {left = left} {port = port} ports (take message first free in_hand same) =
    rw (first, free, in_hand, same) (Permᴰ.middle message left (port.given ++ in_ports ports))
Deal-Permᴰ {waiting = waiting} {port = port} ports (give message same in_hand free more) =
    rw (same, in_hand, free, more)
      (Permᴰ.append_left waiting (
        subst (λ l. Permᴰ l (message ∷ (port.given ++ in_ports ports)))
          (sym (append_assoc port.given (message ∷ []) (in_ports ports)))
          (Permᴰ.middle message port.given (in_ports ports))))
Deal-Permᴰ {waiting = waiting} {port = port} ports (put_back message first in_hand free same) =
    rw (first, in_hand, free, same)
      (Permᴰ.symm (Permᴰ.middle message waiting (port.given ++ in_ports ports)))

OneDeals-Permᴰ :
    {waiting left : List Message} {ports afters : List Port}
    → OneDeals waiting left ports afters
    → Permᴰ (left ++ in_ports afters) (waiting ++ in_ports ports)
OneDeals-Permᴰ (this {ports = ports} one) = Deal-Permᴰ ports one
OneDeals-Permᴰ {waiting} {left} (another {port = p} {ports = ports} {afters = afters} one) =
    let own = p.hand ++ p.given in
    Permᴰ.trans (perm-blocks left own (in_ports afters)) (
      Permᴰ.trans (Permᴰ.append_left own (OneDeals-Permᴰ one))
        (perm-blocks own waiting (in_ports ports)))

Step-Permᴰ :
    {before after : Pool} {messages : List Message}
    → Step before after messages
    → Permᴰ (everything after) (everything before ++ messages)
Step-Permᴰ {before} {after} (enqueue message queued same) =
    let others = in_ports before.ports in
    rw (queued, same)
      (subst (λ l. Permᴰ l ((before.waiting ++ others) ++ (message ∷ [])))
        (sym (append_assoc before.waiting (message ∷ []) others))
        (subst (Permᴰ (before.waiting ++ (message ∷ others)))
          (sym (append_assoc before.waiting others (message ∷ [])))
          (Permᴰ.append_left before.waiting (Permᴰ.append_comm (message ∷ []) others))))
Step-Permᴰ {before} {after} (deal one) =
    subst (Permᴰ (everything after)) (sym (append-nil (everything before))) (OneDeals-Permᴰ one)
Step-Permᴰ {before} {after} (open_port queued new) =
    rw (queued, new, append-nil) (Permᴰ.refl (everything before))

pub Steps-Permᴰ :
    {before after : Pool} {messages : List Message}
    → Steps before messages after
    → Permᴰ (everything after) (everything before ++ messages)
Steps-Permᴰ {before} here =
    subst (Permᴰ (everything before)) (sym (append-nil (everything before)))
      (Permᴰ.refl (everything before))
Steps-Permᴰ {before} {after} (step {start = start} {now = now} {later = later} one rest) =
    subst (Permᴰ (everything after)) (append_assoc (everything start) now later)
      (Permᴰ.trans (Steps-Permᴰ rest) (Permᴰ.append_right later (Step-Permᴰ one)))
