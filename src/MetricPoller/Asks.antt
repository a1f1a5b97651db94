-- ===== src/MetricPoller/Asks.antt =====
-- What the poller's request gets from a cluster of nodes.
use app_autoscaler.Prelude.{
  ℕ, ◌<◌, String, ◌≡◌, ◌≢◌, refl, ◌⊎◌, inl, inr, Option, none, some, List, [], ◌∷◌, length,
  get_elem?,
}
use app_autoscaler.Prelude.Int.{ℤ, negsuc, InInt64}
use app_autoscaler.Prelude.Dict.{lookup, insert}
use app_autoscaler.Strconv.{format_int, eq_upper}
use app_autoscaler.Strconv.RoundTrip.{parse_int-format_int}
use app_autoscaler.Models.{AppInstanceMetric}
use app_autoscaler.EngineDb.{asc}
use app_autoscaler.Http.{
  Query, add_param, Response, redirected, good, time_param, order_param, param, or_refuse,
}
use app_autoscaler.MetricHandler.{
  redirect, MetricQuery, get_metric_histories, metric_params, respond,
}
use app_autoscaler.MetricHandler.Redirects.{owner, node, redirect_referred, redirect_first}
use app_autoscaler.MetricPoller.{poller_query}

time_of : (name : String) (d t : ℤ) → InInt64 t → time_param name d (format_int t ∷ []) ≡ good t
unfolding time_param
time_of name d t h = rw (time_param, parse_int-format_int t h) refl

module _ (start end : ℤ) (in_range_start : InInt64 start) (in_range_end : InInt64 end) where
  query_params : metric_params (poller_query start end) ≡ good (negsuc 0, start, end, asc)
  unfolding metric_params poller_query param lookup insert order_param eq_upper
  query_params = rw (time_of "start" _ start in_range_start, time_of "end" _ end in_range_end) refl

  no_referer : lookup "referer" (poller_query start end) ≡ none
  unfolding poller_query lookup insert
  no_referer = refl

  has_referer :
      (self : String)
      → lookup "referer" (add_param "referer" self (poller_query start end)) ≡ some (self ∷ [])
  unfolding poller_query add_param lookup insert
  has_referer self = refl

  -- The same with the referer that a redirection adds.
  referred_params :
      (self : String)
      → metric_params (add_param "referer" self (poller_query start end))
        ≡ good (negsuc 0, start, end, asc)
  unfolding metric_params poller_query add_param param lookup insert order_param eq_upper
  referred_params self =
      rw (time_of "start" _ start in_range_start, time_of "end" _ end in_range_end) refl

  module _ (encode : List AppInstanceMetric → Option String) (query : ℕ → MetricQuery)
      (adds : List String) (app metric_type : String) where
    -- What node `i` responds to a request for the metrics.
    abbrev pub at_node : ℕ → Query → Response
    at_node i q = get_metric_histories encode (query i) (node adds i) app metric_type q

    -- The response of the node of the app, from the whole window and all the instances.
    abbrev pub wanted : Response
    wanted = respond encode (query (owner adds app) app (negsuc 0) metric_type start end asc)

    self_answer :
        (i : ℕ)
        → owner adds app ≡ i
        → redirect (node adds i) app (poller_query start end) ≡ none
        → at_node i (poller_query start end) ≡ wanted
    unfolding get_metric_histories
    self_answer i e r = rw (get_metric_histories, r, query_params, or_refuse) (rw (← e) refl)

    referred_answer :
        (self : String)
        → at_node (owner adds app) (add_param "referer" self (poller_query start end)) ≡ wanted
    unfolding get_metric_histories
    referred_answer self =
        rw
          (
            get_metric_histories,
            redirect_referred adds app (owner adds app)
                (add_param "referer" self (poller_query start end)) (self ∷ []) (has_referer self),
            referred_params self,
            or_refuse,
          )
          refl

    sent :
        (i : ℕ) (host : String) (q : Query)
        → redirect (node adds i) app (poller_query start end) ≡ some (redirected host q)
        → at_node i (poller_query start end) ≡ redirected host q
    unfolding get_metric_histories
    sent i host q r = rw (get_metric_histories, r) refl

    -- Let the start and the end be values of int64. A request of the poller reaches the node of the app in at
    -- most one redirection from any node of the cluster: that node answers it at once, and every other
    -- redirects it to the host of that node, which answers the redirected request. What it answers is
    -- what its query function finds for all instances of the app, from that start to that end,
    -- in ascending order.
    pub poller_query_answered :
        (i : ℕ)
        → i < length adds
        → ((owner adds app ≡ i) × (at_node i (poller_query start end) ≡ wanted))
          ⊎ ((owner adds app ≢ i)
              × (host : String) × (q : Query) × (get_elem? adds (owner adds app) ≡ some host)
              × (at_node i (poller_query start end) ≡ redirected host q)
              × (at_node (owner adds app) q ≡ wanted))
    poller_query_answered i h =
        elim (redirect_first adds app i (poller_query start end) no_referer h) [
          | inl (e, r) ↦ inl (e, self_answer i e r)
          | inr (other, self, host, s, t, r) ↦ inr (
            other,
            host,
            add_param "referer" self (poller_query start end),
            t,
            sent i host (add_param "referer" self (poller_query start end)) r,
            referred_answer self,
          )
        ]
