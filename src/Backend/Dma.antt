-- ===== src/Backend/Dma.antt =====
-- `allocate_dma_buffer` of the two backends in pynq_instrument/hardware_backend.py, `pynq_dma_buffer` of
-- dma_buffer.py, and the GPIO pin of `PYNQBackend`. A context manager takes the body of its `async with` as an argument. The packages
-- `pynq` and `numpy` are parameters, and `S` is what the body and `pynq` can change.
use pynq_sdk.Prelude.{ℕ, ◌≡◌, Option, none, some, List, ◌∷◌}
use pynq_sdk.Python.Text.{Text, lit}
use pynq_sdk.Python.Exception.{Exception, Result, ok, raised, ◌>>=◌, other_error}

-- What the backends use of `pynq`, by the state `S` of its memory: its buffers are `B`, its pins `G`.
pub record Pynq (S Shape Dtype B G : Type 0) : Type 0 where
  pub allocate : Shape → Dtype → S → Result B × S
  pub freebuffer : B → S → S
  pub get_gpio_pin : ℕ → ℕ
  pub gpio : ℕ → Text → S → Result G × S

-- `import pynq` where the package is not installed
abbrev pub no_pynq : Exception
no_pynq = record { kind = other_error; message = lit "No module named 'pynq'" }

module _ {S Shape Dtype B G : Type 0} (pynq : Pynq S Shape Dtype B G) where
  -- `finally: buf.freebuffer()`, whatever the body came to
  abbrev finally_free : {A : Type 0} → B → Result A × S → Result A × S
  finally_free buf (result, s) = (result, pynq.freebuffer buf s)

  abbrev pub with_buffer : {A : Type 0} → (B → S → Result A × S) → Result B × S → Result A × S
  with_buffer body (raised e, s) = (raised e, s)
  with_buffer body (ok buf, s) = finally_free buf (body buf s)

module _ {S Shape Dtype B G : Type 0} where
  -- `async with backend.allocate_dma_buffer(shape, dtype) as buf: body(buf)`
  unfoldable pub allocate_dma_buffer :
      {A : Type 0}
      → Option (Pynq S Shape Dtype B G)
      → Shape
      → Dtype
      → (B → S → Result A × S)
      → S
      → Result A × S
  allocate_dma_buffer none shape dtype body s = (raised no_pynq, s)
  allocate_dma_buffer (some pynq) shape dtype body s =
      with_buffer pynq body (pynq.allocate shape dtype s)

  -- `pynq_dma_buffer` of pynq_instrument/dma_buffer.py
  unfoldable pub pynq_dma_buffer :
      {A : Type 0}
      → Option (Pynq S Shape Dtype B G)
      → Shape
      → Dtype
      → (B → S → Result A × S)
      → S
      → Result A × S
  pynq_dma_buffer none shape dtype body s = (raised no_pynq, s)
  pynq_dma_buffer (some pynq) shape dtype body s =
      with_buffer pynq body (pynq.allocate shape dtype s)

  -- `PYNQBackend.get_ps_gpio`
  unfoldable pub get_pynq_gpio : Option (Pynq S Shape Dtype B G) → ℕ → S → Result G × S
  get_pynq_gpio none index s = (raised no_pynq, s)
  get_pynq_gpio (some pynq) index s = pynq.gpio (pynq.get_gpio_pin index) (lit "out") s

-- What `pynq` promises: an allocation adds its buffer to those in use, or raises and adds none, and a
-- free takes the buffer away.
pub record IsAllocator {S Shape Dtype B G : Type 0} (pynq : Pynq S Shape Dtype B G) : Type 0 where
  pub in_use : S → List B
  pub allocate-ok :
      (shape : Shape) (dtype : Dtype) (s s' : S) (buf : B)
      → pynq.allocate shape dtype s ≡ (ok buf, s')
      → in_use s' ≡ buf ∷ in_use s
  pub allocate-raised :
      (shape : Shape) (dtype : Dtype) (s s' : S) (e : Exception)
      → pynq.allocate shape dtype s ≡ (raised e, s')
      → in_use s' ≡ in_use s
  pub freebuffer-in_use :
      (buf : B) (bufs : List B) (s : S)
      → in_use s ≡ buf ∷ bufs
      → in_use (pynq.freebuffer buf s) ≡ bufs

-- What `MockBackend` uses of `numpy`: arrays `A` of values `V`, indexed by keys `K`.
pub record Numpy (Shape Dtype A V K : Type 0) : Type 0 where
  pub zeros : Shape → Dtype → Result A
  pub to_list : A → List V
  pub size : A → ℕ
  pub get_item : K → A → Result V
  pub set_item : K → V → A → Result A

pub record MockDmaBuffer (A : Type 0) : Type 0 where
  pub array : A

module _ {Shape Dtype A V K : Type 0} (numpy : Numpy Shape Dtype A V K) where
  unfoldable pub to_list : MockDmaBuffer A → List V
  to_list b = numpy.to_list b.array

  unfoldable pub size : MockDmaBuffer A → ℕ
  size b = numpy.size b.array

  unfoldable pub get_item : K → MockDmaBuffer A → Result V
  get_item key b = numpy.get_item key b.array

  unfoldable pub set_item : K → V → MockDmaBuffer A → Result (MockDmaBuffer A)
  set_item key value b = do array ← numpy.set_item key value b.array; ok (record { array = array })

  -- `MockBackend.allocate_dma_buffer`: nothing is freed
  unfoldable pub allocate_mock_buffer :
      {R : Type 0} → Shape → Dtype → (MockDmaBuffer A → Result R) → Result R
  allocate_mock_buffer shape dtype body = do
    array ← numpy.zeros shape dtype
    body (record { array = array })
