-- ===== src/Pipe/Ring.antt =====
-- The bytes that a pipe holds. The counters wrap at 2 ^ 32, and 512 divides 2 ^ 32.
use microkernal.Common.{
  List, [], add32, ap, ap₂, arith, false, get_elem?-set_self, get_or, get_or-of_some, length,
  length-set, refl, set, sub32, suc, true, zero, ℕ, ◌%◌, ◌++◌, ◌-◌, ◌<◌, ◌^◌, ◌↔◌, ◌∷◌, ◌≡◌, ◌≢◌,
  ◌≤◌,
}
use microkernal.Pipe.{Pipe, pipesize, is_full, is_empty, put, take_byte, pipe_init}

-- The bytes written and not yet read.
abbrev pub fill : Pipe → ℕ
fill p = sub32 p.nwrite p.nread

pub record IsValid (p : Pipe) : Type 0 where
  pub sized : length p.bytes ≡ pipesize
  pub read_word : p.nread < 2 ^ 32
  pub write_word : p.nwrite < 2 ^ 32
  pub bounded : fill p ≤ pipesize

-- `n` bytes from counter `r` on.
abbrev pub window : List ℕ → ℕ → ℕ → List ℕ
window d r zero = []
window d r (suc n) = get_or d (r % pipesize) 0 ∷ window d (add32 r 1) n

abbrev pub contents : Pipe → List ℕ
contents p = window p.bytes p.nread (fill p)

pub length-window : (d : List ℕ) (r n : ℕ) → length (window d r n) ≡ n
length-window d r zero = refl
length-window d r (suc n) = ap suc (length-window d (add32 r 1) n)

get_or-set_self : (d : List ℕ) (i x : ℕ) → i < length d → get_or (set d i x) i 0 ≡ x
get_or-set_self d i x h = get_or-of_some (set d i x) i 0 (get_elem?-set_self d i x h)

get_or-set_ne : (d : List ℕ) (i j x : ℕ) → i ≢ j → get_or (set d i x) j 0 ≡ get_or d j 0
get_or-set_ne [] i j x h = refl
get_or-set_ne (y ∷ d) zero zero x h = absurd (h refl)
get_or-set_ne (y ∷ d) zero (suc j) x h = refl
get_or-set_ne (y ∷ d) (suc i) zero x h = refl
get_or-set_ne (y ∷ d) (suc i) (suc j) x h = get_or-set_ne d i j x (λ e. h (ap suc e))

-- Writing just past a window extends it by that byte.
window-set :
    (d : List ℕ) (x n r w : ℕ)
    → length d ≡ pipesize
    → r < 2 ^ 32
    → n < pipesize
    → w ≡ add32 r n
    → window (set d (w % pipesize) x) r (suc n) ≡ window d r n ++ (x ∷ [])
window-set d x zero r w sized hr hn e =
    let at : w % pipesize ≡ r % pipesize = omega arith in
    rw (at, get_or-set_self d (r % pipesize) x (omega arith))
window-set d x (suc n) r w sized hr hn e =
    ap₂ ◌∷◌ (get_or-set_ne d (w % pipesize) (r % pipesize) x (omega arith))
      (window-set d x n (add32 r 1) w sized (omega arith) (omega arith) (omega arith))

window-step :
    (d : List ℕ) (r n : ℕ)
    → n ≢ 0
    → window d r n ≡ get_or d (r % pipesize) 0 ∷ window d (add32 r 1) (n - 1)
window-step d r zero h = absurd (h refl)
window-step d r (suc n) h = ap (λ k. window d r (suc k)) (omega arith)

pub pipe_init-IsValid : (page : List ℕ) → length page ≡ pipesize → IsValid (pipe_init page)
unfolding pipe_init
pipe_init-IsValid page h = omega arith

-- A pipe is full or empty by the code's tests exactly when it holds 512 bytes or none.
pub full_iff : (p : Pipe) → IsValid p → (is_full p ≡ true) ↔ (fill p ≡ pipesize)
full_iff p v = (λ h. ground (arith, v), λ h. ground (arith, v))

pub empty_iff : (p : Pipe) → IsValid p → (is_empty p ≡ true) ↔ (contents p ≡ [])
empty_iff p v = (
  λ h. let z : fill p ≡ 0 = ground arith in rw z,
  λ h. let z = length-window p.bytes p.nread (fill p) in ground (arith, z, ap length h),
)

-- Storing a byte in a pipe that is not full appends it to what the pipe holds.
pub put_lem :
    (p : Pipe) (x : ℕ)
    → IsValid p
    → is_full p ≡ false
    → IsValid (put p x) × (contents (put p x) ≡ contents p ++ (x ∷ []))
unfolding put
put_lem p x v h = (ground (arith, length-set p.bytes (p.nwrite % pipesize) x), grown)
  where
    one_more : fill (put p x) ≡ suc (fill p)
    one_more = ground arith

    grown : contents (put p x) ≡ contents p ++ (x ∷ [])
    grown = rw one_more (
        window-set p.bytes x (fill p) p.nread p.nwrite v.sized v.read_word (ground arith)
          (omega arith))

-- Fetching a byte from a pipe that is not empty removes its oldest byte.
pub take_byte_lem :
    (p : Pipe)
    → IsValid p
    → is_empty p ≡ false
    → IsValid (take_byte p).1 × (contents p ≡ (take_byte p).0 ∷ contents (take_byte p).1)
unfolding take_byte
take_byte_lem p v h = (ground arith, shrunk)
  where
    one_less : fill (take_byte p).1 ≡ fill p - 1
    one_less = ground arith

    shrunk : contents p ≡ (take_byte p).0 ∷ contents (take_byte p).1
    shrunk = rw one_less (window-step p.bytes p.nread (fill p) (ground arith))
