-- ===== src/Views/Outcomes.antt =====
-- adapters/observation.py: when an observation says that a run is complete.
