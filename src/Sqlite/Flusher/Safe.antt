-- ===== src/Sqlite/Flusher/Safe.antt =====
-- The lock and `S` stay as `Sound` says, whatever the flusher and the closing thread do next.
use oteltracing_c.Base.{ℕ, ◌≡◌, refl, sym, ◌∙◌, ap, true, false, [], ◌∷◌, ◌++◌, suc}
use oteltracing_c.Sqlite.{Sqlite}
use oteltracing_c.Sqlite.Open.{World, drain_into}
use oteltracing_c.Sqlite.Flusher.{
  Lock, nobody, of_flusher, of_closer, Shared, Step, clear, forget, lock, wait, wake, unlock, drain,
  leave, finish, close_lock, close_clear, close_signal, close_unlock, close_join, Run, stay, more,
  created,
}
use oteltracing_c.Sqlite.Flusher.Measure.{
  inside, closing, by_flusher, by_closer, mark, drain_all, Sound, drain_all-snoc, mark-drain,
}

module _ (q : Sqlite) (w : World q) where
  pub created-Sound : Sound q w (created q w)
  unfolding by_flusher by_closer inside closing mark drain_all
  created-Sound = record {
    flusher = refl;
    closer = refl;
    drains = [];
    world = refl;
    ended = λ e. absurd (cc e);
  }

  apart :
      (l : Lock)
      → (by_flusher l ≡ true → by_closer l ≡ false) × (by_closer l ≡ true → by_flusher l ≡ false)
  unfolding by_flusher by_closer
  apart nobody = (λ h. refl, λ h. refl)
  apart of_flusher = (λ h. refl, λ h. sym h)
  apart of_closer = (λ h. sym h, λ h. refl)

  -- the two do not hold the lock together
  pub alone :
      (t : Shared q)
      → Sound q w t
      → (inside t.flusher ≡ true → closing t.closer ≡ false)
        × (closing t.closer ≡ true → inside t.flusher ≡ false)
  alone t v = (
    λ h. sym v.closer ∙ (apart t.lock).0 (v.flusher ∙ h),
    λ h. sym v.flusher ∙ (apart t.lock).1 (v.closer ∙ h),
  )

  free :
      (t : Shared q)
      → Sound q w t
      → t.lock ≡ nobody
      → (inside t.flusher ≡ false) × (closing t.closer ≡ false)
  unfolding by_flusher by_closer
  free t v e = (sym v.flusher ∙ ap by_flusher e, sym v.closer ∙ ap by_closer e)

  step-Sound : (t u : Shared q) → Sound q w t → Step q t u → Sound q w u
  unfolding by_flusher by_closer inside closing mark
  step-Sound t u v (lock e f) = record {
    flusher = refl;
    closer = sym (free t v f).1;
    drains = v.drains;
    world = v.world;
    ended = λ j. let x = v.ended j in absurd (cc (e, x));
  }
  step-Sound t u v (wait e on) = record {
    flusher = refl;
    closer = sym ((alone t v).0 (ap inside e));
    drains = v.drains;
    world = v.world;
    ended = λ j. let x = v.ended j in absurd (cc (e, x));
  }
  step-Sound t u v (wake e f) = record {
    flusher = refl;
    closer = sym (free t v f).1;
    drains = v.drains;
    world = v.world;
    ended = λ j. let x = v.ended j in absurd (cc (e, x));
  }
  step-Sound t u v (unlock e) = record {
    flusher = refl;
    closer = sym ((alone t v).0 (ap inside e));
    drains = v.drains;
    world = v.world;
    ended = λ j. let x = v.ended j in absurd (cc (e, x));
  }
  step-Sound t u v (drain cs e) = record {
    flusher = v.flusher ∙ ap inside e;
    closer = v.closer;
    drains = v.drains ++ (cs ∷ []);
    world =
        ap (λ x. drain_into q x cs) v.world
        ∙ mark-drain q t.closer (drain_all q w v.drains) cs
        ∙ ap (mark q t.closer) (sym (drain_all-snoc q w v.drains cs));
    ended = λ j. let x = v.ended j in absurd (cc (e, x));
  }
  step-Sound t u v (leave e off) = record {
    flusher = v.flusher ∙ ap inside e;
    closer = v.closer;
    drains = v.drains;
    world = v.world;
    ended = λ j. let x = v.ended j in absurd (cc (e, x));
  }
  step-Sound t u v (finish e) = record {
    flusher = refl;
    closer = sym ((alone t v).0 (ap inside e));
    drains = v.drains;
    world = v.world;
    ended = λ j. refl;
  }
  step-Sound t u v (close_lock e have f) = record {
    flusher = sym (free t v f).0;
    closer = refl;
    drains = v.drains;
    world = v.world ∙ ap (λ c. mark q c (drain_all q w v.drains)) e;
    ended = λ j. absurd (cc j);
  }
  step-Sound t u v (close_clear e) = record {
    flusher = v.flusher;
    closer = v.closer ∙ ap closing e;
    drains = v.drains;
    world = ap (clear q) (v.world ∙ ap (λ c. mark q c (drain_all q w v.drains)) e);
    ended = λ j. absurd (cc j);
  }
  step-Sound t u v (close_signal e) = record {
    flusher = v.flusher;
    closer = v.closer ∙ ap closing e;
    drains = v.drains;
    world = v.world ∙ ap (λ c. mark q c (drain_all q w v.drains)) e;
    ended = λ j. absurd (cc j);
  }
  step-Sound t u v (close_unlock e) = record {
    flusher = sym ((alone t v).1 (ap closing e));
    closer = refl;
    drains = v.drains;
    world = v.world ∙ ap (λ c. mark q c (drain_all q w v.drains)) e;
    ended = λ j. absurd (cc j);
  }
  step-Sound t u v (close_join e r) = record {
    flusher = v.flusher;
    closer = v.closer ∙ ap closing e;
    drains = v.drains;
    world = ap (forget q) (v.world ∙ ap (λ c. mark q c (drain_all q w v.drains)) e);
    ended = λ j. r;
  }

  pub Run-Sound : (t : Shared q) (n : ℕ) (u : Shared q) → Sound q w t → Run q t n u → Sound q w u
  Run-Sound t n u v stay = v
  Run-Sound t (suc n) u v (more {u = m} r s) = step-Sound m u (Run-Sound t n m v r) s
