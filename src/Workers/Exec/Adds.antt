-- ===== src/Workers/Exec/Adds.antt =====
-- The frames that proofs about the workers use: the Docker configuration, and the events of an
-- action.
use iib.Common.{◌≡◌, refl, ◌∙◌, sym, ap, List, [], ◌∷◌, ◌++◌, All}
use iib.Workers.Exec.{World, Event, DockerConfig}
use iib.Workers.Exec.Keeps.{Frame}

-- The events after are the ones before, with new ones that all meet `P`.
pub record Adds (P : Event → Type 0) (w w' : World) : Type 0 where
  pub new : List Event
  pub is : w'.events ≡ new ++ w.events
  pub each : All P new

++-assoc : (xs ys zs : List Event) → (xs ++ ys) ++ zs ≡ xs ++ (ys ++ zs)
++-assoc [] ys zs = refl
++-assoc (x ∷ xs) ys zs = ap (λ l. x ∷ l) (++-assoc xs ys zs)

All-++ : (P : Event → Type 0) (xs ys : List Event) → All P xs → All P ys → All P (xs ++ ys)
All-++ P [] ys hx hy = hy
All-++ P (x ∷ xs) ys hx hy = (hx.0, All-++ P xs ys hx.1 hy)

module _ (P : Event → Type 0) where
  pub Adds-turn : {a b c : World} → Adds P a b → Adds P b c → Adds P a c
  Adds-turn {a} p q = record {
    new = q.new ++ p.new;
    is = q.is ∙ ap (λ l. q.new ++ l) p.is ∙ sym (++-assoc q.new p.new a.events);
    each = All-++ P q.new p.new q.each p.each;
  }

  unfoldable pub adding : Frame
  adding = record {
    Rel = Adds P;
    same = λ w. record { new = []; is = refl; each = tt };
    turn = Adds-turn;
  }

-- Where the Docker configuration was this one before, it is so after.
unfoldable pub settled : DockerConfig → Frame
settled d = record {
  Rel = λ w w'. w.docker ≡ d → w'.docker ≡ d;
  same = λ w h. h;
  turn = λ p q h. q (p h);
}
