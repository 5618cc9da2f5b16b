-- ===== src/Webhooks/Delivery.antt =====
-- No event is lost between the endpoint and the workers.
