-- ===== src/Plugins/Listener.antt =====
-- Who releases the native objects that `rocks_event_listener_t` of ctypes.hpp hands to the callbacks
-- of src/listener.rs.
use rust_rocks.Common.{ℕ, ◌+◌, ◌≡◌, refl, Bool, false, none, some, ◌==◌, if◌then◌else◌, arith}
use rust_rocks.Ffi.{
  Ptr, null, done, panic, fault, M, pure, ◌>>=◌, ◌>>◌, alloc, free, IsHeap, SameCells, update,
}
use rust_rocks.Ffi.Object.{cf_handle}
use rust_rocks.Engine.{Engine}
use rust_rocks.Error.{Native, Result, Status, save_error, from_ll, drop_status, load_status}
use rust_rocks.Db.Family.{ColumnFamilyHandle, drop_handle}

module _ (E : Engine) where
  -- A listener that reads the error and then either drops it and returns `Ok(())`, which is true
  -- here, or returns it as `Err(bg_error)`, as the default does.
  abbrev pub ListenerFn : Type 0
  ListenerFn = E.Rep → Bool

  unfoldable pub default_listener : ListenerFn
  default_listener bg_error = false

  -- `result.unwrap_err()`
  abbrev pub unwrap_err : Result (Unit {0}) → M (Native E) Status
  unwrap_err (Result.ok u) w = panic w
  unwrap_err (Result.err s) w = done s w

  -- The status is dropped by the listener, or at the end with what the listener returned.
  unfoldable pub rust_event_listener_on_background_error : ListenerFn → Ptr → M (Native E) ℕ
  unfolding from_ll load_status drop_status
  rust_event_listener_on_background_error listener bg_error = do
    result ← from_ll E bg_error
    s ← unwrap_err result
    rep ← load_status E s.raw
    drop_status E s
    pure (if listener rep then 0 else 1)

  -- `OnBackgroundError`, whose result is whether the error was suppressed
  unfoldable pub on_background_error : ListenerFn → E.Rep → M (Native E) Bool
  unfolding save_error rust_event_listener_on_background_error
  on_background_error listener bg_error = do
    st ← save_error E bg_error
    ret ← rust_event_listener_on_background_error listener st
    (if st == null then pure tt else free st)
    pure (ret == 0)

  -- The listener's method sees the handle and gives nothing back.
  unfoldable pub rust_event_listener_on_column_family_handle_deletion_started :
      Ptr → M (Native E) (Unit {0})
  unfolding drop_handle
  rust_event_listener_on_column_family_handle_deletion_started handle =
      let cf : ColumnFamilyHandle = record { raw = handle } in drop_handle E cf

  -- `OnColumnFamilyHandleDeletionStarted`
  unfoldable pub on_column_family_handle_deletion_started : E.Cf → M (Native E) (Unit {0})
  unfolding rust_event_listener_on_column_family_handle_deletion_started
  on_column_family_handle_deletion_started handle = do
    p ← alloc (cf_handle handle)
    rust_event_listener_on_column_family_handle_deletion_started p

module _ (E : Engine) (w : Native E) (is : IsHeap w.heap) where
  -- From a heap that meets `IsHeap`, a background error that is reported to a listener which drops
  -- or returns it is a double free: Rust drops the status that it took over, and the glue deletes
  -- it again.
  pub on_background_error-double_free :
      (listener : ListenerFn E) (bg_error : E.Rep)
      → E.is_ok bg_error ≡ false
      → on_background_error E listener bg_error w ≡ fault
  unfolding on_background_error
  on_background_error-double_free listener bg_error bad =
      ground (arith, is.positive, bad, E.is_ok_iff_code bg_error)

  -- From a heap that meets `IsHeap`, the handle that announces the deletion of a column family is
  -- released once, and nothing else in the native heap changes.
  pub on_column_family_handle_deletion_started-SameCells :
      (c : E.Cf)
      → ((w' : Native E) × (on_column_family_handle_deletion_started E c w ≡ done tt w')
          × SameCells w.heap w'.heap
          × (w'.state ≡ w.state))
  unfolding on_column_family_handle_deletion_started
  on_column_family_handle_deletion_started-SameCells c = (
    record w {
      heap = record {
        next = w.heap.next + 1;
        cell = update (update w.heap.cell w.heap.next (some (cf_handle c))) w.heap.next none;
      };
    },
    ground (arith, is.positive),
    λ p. ground (arith, is.unused p),
    refl,
  )
